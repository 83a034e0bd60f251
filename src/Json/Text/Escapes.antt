-- ===== src/Json/Text/Escapes.antt =====
-- Escaped texts, read back character by character.

use Prim.Native.Char.{Char, code}
use mathlib.Core.List.{append_assoc}
use backup_operator.Base.{
  ◌≡◌, refl, sym, ap, ◌∙◌, ℕ, zero, suc, ◌+◌, ◌-◌, ◌*◌, ◌/◌, ◌%◌, ◌<◌, String, ◌<>◌, Bool,
  Bool-cases, inl, inr, true, false, ◌||◌, Option, none, some, List, [], ◌∷◌, ◌++◌, codes,
  codes-append, ltb, eqb, arith, if◌then◌else◌,
}
use backup_operator.Json.Text.{hex, escape_char, escape}
use backup_operator.Json.Text.Characters.{char_of, char_of-code}

-- The value of a hexadecimal digit as encoding/json writes it.
abbrev unhex : ℕ → ℕ
unhex c = if ltb c 58 then c - 48 else c - 87

hex_code : ℕ → ℕ
hex_code n = if ltb n 10 then n + 48 else n + 87

codes-hex : (n : ℕ) → n < 16 → codes (hex n) ≡ hex_code n ∷ []
unfolding hex_code
codes-hex zero h = refl
codes-hex (suc zero) h = refl
codes-hex (suc (suc zero)) h = refl
codes-hex (suc (suc (suc zero))) h = refl
codes-hex (suc (suc (suc (suc zero)))) h = refl
codes-hex (suc (suc (suc (suc (suc zero))))) h = refl
codes-hex (suc (suc (suc (suc (suc (suc zero)))))) h = refl
codes-hex (suc (suc (suc (suc (suc (suc (suc zero))))))) h = refl
codes-hex (suc (suc (suc (suc (suc (suc (suc (suc zero)))))))) h = refl
codes-hex (suc (suc (suc (suc (suc (suc (suc (suc (suc zero))))))))) h = refl
codes-hex (suc (suc (suc (suc (suc (suc (suc (suc (suc (suc zero)))))))))) h = refl
codes-hex (suc (suc (suc (suc (suc (suc (suc (suc (suc (suc (suc zero))))))))))) h = refl
codes-hex (suc (suc (suc (suc (suc (suc (suc (suc (suc (suc (suc (suc zero)))))))))))) h = refl
codes-hex (suc (suc (suc (suc (suc (suc (suc (suc (suc (suc (suc (suc (suc zero))))))))))))) h =
    refl
codes-hex (suc (suc (suc (suc (suc (suc (suc (suc (suc (suc (suc (suc (suc (suc zero))))))))))))))
      h =
    refl
codes-hex
      (suc (suc (suc (suc (suc (suc (suc (suc (suc (suc (suc (suc (suc (suc (suc zero)))))))))))))))
      h =
    refl
codes-hex
      (suc
        (suc (suc (suc (suc (suc (suc (suc (suc (suc (suc (suc (suc (suc (suc (suc n))))))))))))))))
      h =
    absurd (omega arith)

unhex-hex_code : (n : ℕ) → n < 16 → unhex (hex_code n) ≡ n
unfolding hex_code
unhex-hex_code n h = ground arith

-- The character after a backslash and a letter of its own.
abbrev short : ℕ → Option ℕ
short e =
    if eqb e b'"'
    then some b'"'
    else if eqb e b'\\'
    then some b'\\'
    else if eqb e b'b'
    then some 8
    else if eqb e b'f'
    then some 12
    else if eqb e b'n'
    then some 10
    else if eqb e b'r'
    then some 13
    else if eqb e b't'
    then some 9
    else none

-- The four digits after `\u`.
abbrev long : List ℕ → Option (ℕ × List ℕ)
long (a ∷ b ∷ c ∷ d ∷ rest) = some (((unhex a * 16 + unhex b) * 16 + unhex c) * 16 + unhex d, rest)
long _ = none

abbrev after_backslash : List ℕ → Option (ℕ × List ℕ)
after_backslash [] = none
after_backslash (e ∷ rest) = elim (short e) [ some n ↦ some (n, rest) | none ↦ long rest ]

-- The next character of a text, or none at its closing quote.
next : List ℕ → Option (ℕ × List ℕ)
next [] = none
next (c ∷ rest) =
    if eqb c b'"' then none else if eqb c b'\\' then after_backslash rest else some (c, rest)

module _ (n : ℕ) (rest : List ℕ) where
  -- What stands for the character of code `n`.
  Spells : String → Type 0
  Spells s = next (codes s ++ rest) ≡ some (n, rest)

  branch :
      (b : Bool) (s t : String)
      → (b ≡ true → Spells s)
      → (b ≡ false → Spells t)
      → Spells (if b then s else t)
  branch true s t f g = f refl
  branch false s t f g = g refl

  -- A code with an escape of its own.
  own : (k : ℕ) (s : String) → next (codes s ++ rest) ≡ some (k, rest) → eqb n k ≡ true → Spells s
  unfolding next Spells
  own k s e h = e ∙ ap (λ m. some (m, rest)) (ground arith)

hex_escape :
    (n : ℕ) (rest : List ℕ) → n < 256 → Spells n rest ("\\u00" <> (hex (n / 16) <> hex (n % 16)))
unfolding next Spells
hex_escape n rest h =
    rw
      (
        codes-append "\\u00" (hex (n / 16) <> hex (n % 16)),
        codes-append (hex (n / 16)) (hex (n % 16)),
        codes-hex (n / 16) (omega arith),
        codes-hex (n % 16) (omega arith),
        unhex-hex_code (n / 16) (omega arith),
        unhex-hex_code (n % 16) (omega arith),
      )
      (ap (λ k. some (k, rest)) (omega arith))

line_separator :
    (n : ℕ) (rest : List ℕ)
    → eqb n 0x2028 || eqb n 0x2029 ≡ true
    → Spells n rest ("\\u202" <> hex (n % 16))
unfolding next Spells
line_separator n rest h = elim (Bool-cases (eqb n 0x2028)) [
  | inl e ↦ rw (sym (equal n 0x2028 e)) refl
  | inr e ↦ rw (sym (equal n 0x2029 (rw e at h))) refl
]
  where
    equal : (n k : ℕ) → eqb n k ≡ true → k ≡ n
    equal n k h = ground arith

plain :
    (c : Char) (rest : List ℕ)
    → eqb (code c) b'"' ≡ false
    → eqb (code c) b'\\' ≡ false
    → Spells (code c) rest (String.◌∷◌ c "")
unfolding next Spells
plain c rest quote backslash = rw (quote, backslash) refl

escape_char-Spells : (c : Char) (rest : List ℕ) → Spells (code c) rest (escape_char c)
unfolding escape_char next
escape_char-Spells c rest =
    let n = code c in
    branch n rest (eqb n b'"') _ _ (own n rest b'"' _ refl) λ quote.
      branch n rest (eqb n b'\\') _ _ (own n rest b'\\' _ refl) λ backslash.
        branch n rest (eqb n 8) _ _ (own n rest 8 _ refl) λ _.
          branch n rest (eqb n 12) _ _ (own n rest 12 _ refl) λ _.
            branch n rest (eqb n 10) _ _ (own n rest 10 _ refl) λ _.
              branch n rest (eqb n 13) _ _ (own n rest 13 _ refl) λ _.
                branch n rest (eqb n 9) _ _ (own n rest 9 _ refl) λ _.
                  branch n rest (ltb n 32 || eqb n b'<' || eqb n b'>' || eqb n b'&') _ _
                    (λ h. hex_escape n rest (ground arith))
                    λ _.
                      branch n rest (eqb n 0x2028 || eqb n 0x2029) _ _ (line_separator n rest)
                        λ _. plain c rest quote backslash

next-escape_char :
    (c : Char) (rest : List ℕ) → next (codes (escape_char c) ++ rest) ≡ some (code c, rest)
unfolding Spells
next-escape_char c rest = escape_char-Spells c rest

abbrev add : ℕ → Option (String × List ℕ) → Option (String × List ℕ)
add n none = none
add n (some (s, rest)) = some (String.◌∷◌ (char_of n) s, rest)

abbrev continue :
    (List ℕ → Option (String × List ℕ)) → List ℕ → Option (ℕ × List ℕ) → Option (String × List ℕ)
continue go l none = some ("", l)
continue go l (some (n, rest)) = add n (go rest)

-- A text up to its closing quote, which is left.
pub read_text : ℕ → List ℕ → Option (String × List ℕ)
read_text zero l = none
read_text (suc f) l = continue (read_text f) l (next l)

pub letters : String → ℕ
letters String.[] = zero
letters (String.◌∷◌ c s) = suc (letters s)

next-quote : (rest : List ℕ) → next (b'"' ∷ rest) ≡ none
unfolding next
next-quote rest = refl

pub read_text-escape :
    (s : String) (f : ℕ) (rest : List ℕ)
    → letters s < f
    → read_text f (codes (escape s) ++ b'"' ∷ rest) ≡ some (s, b'"' ∷ rest)
unfolding read_text escape letters
read_text-escape s zero rest h = absurd (omega arith)
read_text-escape String.[] (suc f) rest h = rw (next-quote rest) refl
read_text-escape (String.◌∷◌ c s) (suc f) rest h =
    rw
      (
        codes-append (escape_char c) (escape s),
        append_assoc (codes (escape_char c)) (codes (escape s)) (b'"' ∷ rest),
        next-escape_char c (codes (escape s) ++ b'"' ∷ rest),
        read_text-escape s f rest (omega arith),
        char_of-code c,
      )
      refl
