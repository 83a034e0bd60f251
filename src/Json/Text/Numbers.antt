-- ===== src/Json/Text/Numbers.antt =====
-- Integers as encoding/json writes them, read back.

use mathlib.Core.Bool.{false≢true}
use backup_operator.Base.{
  ◌≡◌, refl, ap, ◌∙◌, ℕ, suc, ◌-◌, ℤ, pos, negsuc, Bool-cases, inl, inr, true, false, List, [], ◌∷◌,
  ◌++◌, codes, codes-append, decimal, itoa, eqb, arith, if◌then◌else◌, read, read-decimal, is_digit,
  all_digits, all_digits-decimal, starts_with_digit, starts_with_digit-decimal,
}

-- The digits in front, and what is behind them.
digits : List ℕ → List ℕ
digits [] = []
digits (c ∷ l) = let rest = digits l in if is_digit c then c ∷ rest else []

behind : List ℕ → List ℕ
behind [] = []
behind (c ∷ l) = let rest = behind l in if is_digit c then rest else c ∷ l

digits-append :
    (xs l : List ℕ)
    → all_digits xs ≡ true
    → starts_with_digit l ≡ false
    → (digits (xs ++ l) ≡ xs) × (behind (xs ++ l) ≡ l)
unfolding digits behind
digits-append [] [] h k = (refl, refl)
digits-append [] (c ∷ l) h k = (rw k refl, rw k refl)
digits-append (x ∷ xs) l h k = elim (Bool-cases (is_digit x)) [
  | inl e ↦ let (a, b) = digits-append xs l (rw e at h) k in (rw (e, a) refl, rw (e, b) refl)
  | inr e ↦ absurd (false≢true (rw e at h))
]

-- An integer, and what is behind it.
pub read_number : List ℕ → ℤ × List ℕ
unfolding digits behind
read_number [] = (pos 0, [])
read_number (c ∷ l) =
    if eqb c b'-'
    then (negsuc (read 0 (digits l) - 1), behind l)
    else (pos (read 0 (digits (c ∷ l))), behind (c ∷ l))

minus : (l : List ℕ) → read_number (b'-' ∷ l) ≡ (negsuc (read 0 (digits l) - 1), behind l)
unfolding read_number
minus l = refl

no_minus :
    (l : List ℕ) → starts_with_digit l ≡ true → read_number l ≡ (pos (read 0 (digits l)), behind l)
unfolding read_number
no_minus [] h = absurd (false≢true h)
no_minus (c ∷ l) h = rw (not_minus c h) refl
  where
    not_minus : (c : ℕ) → is_digit c ≡ true → eqb c b'-' ≡ false
    not_minus c h = ground arith

starts_with_digit-append :
    (xs l : List ℕ) → starts_with_digit xs ≡ true → starts_with_digit (xs ++ l) ≡ true
starts_with_digit-append [] l h = absurd (false≢true h)
starts_with_digit-append (x ∷ xs) l h = h

pub read_number-itoa :
    (z : ℤ) (l : List ℕ) → starts_with_digit l ≡ false → read_number (codes (itoa z) ++ l) ≡ (z, l)
unfolding itoa
read_number-itoa (pos n) l h =
    let (a, b) = digits-append (codes (decimal n)) l (all_digits-decimal n) h in
    no_minus _ (starts_with_digit-append (codes (decimal n)) l (starts_with_digit-decimal n))
    ∙ rw (a, b, read-decimal n) refl
read_number-itoa (negsuc n) l h =
    let (a, b) = digits-append (codes (decimal (suc n))) l (all_digits-decimal (suc n)) h in
    rw codes-append (
      minus (codes (decimal (suc n)) ++ l)
      ∙ rw (a, b, read-decimal (suc n)) (ap (λ m. (negsuc m, l)) (omega arith)))
