-- ===== src/Base/Text/Decimal.antt =====
-- The decimal text of a number, read back.
use Prim.Native.Nat.{ℕ, zero, suc, ◌+◌, ◌-◌, ◌*◌, ◌/◌, ◌%◌, ◌<◌}
use Prim.Native.Char.{code}
use Prim.Native.String.{String, ◌++◌ as ◌<>◌}
use Prim.Native.String.append
use mathlib.Core.Path.{◌≡◌, refl, sym, ap, ◌∙◌, subst}
use mathlib.Core.Logic.{inl, inr}
use mathlib.Core.Bool.{Bool, true, false, ◌&&◌, false≢true}
use mathlib.Core.List.{List, [], ◌∷◌, ◌++◌}
use native.Mathlib.Omega.{arith}
use backup_operator.Base.Tests.{ltb, leb, Bool-cases}
use backup_operator.Base.Text.{codes, digit, decimal_from, decimal}

-- The number that a list of digits denotes after the digits of `n`.
abbrev pub read : ℕ → List ℕ → ℕ
read n [] = n
read n (c ∷ cs) = read (n * 10 + (c - b'0')) cs

read-append : (n : ℕ) (xs ys : List ℕ) → read n (xs ++ ys) ≡ read (read n xs) ys
read-append n [] ys = refl
read-append n (c ∷ xs) ys = read-append (n * 10 + (c - b'0')) xs ys

pub codes-append : (s t : String) → codes (s <> t) ≡ codes s ++ codes t
codes-append String.[] t = ap codes (append.nil t)
codes-append (String.◌∷◌ c s) t =
    ap codes (append.cons c s t) ∙ ap (λ l. code c ∷ l) (codes-append s t)

read-digit : (n d : ℕ) → d < 10 → read n (codes (digit d)) ≡ n * 10 + d
read-digit n zero h = refl
read-digit n (suc zero) h = refl
read-digit n (suc (suc zero)) h = refl
read-digit n (suc (suc (suc zero))) h = refl
read-digit n (suc (suc (suc (suc zero)))) h = refl
read-digit n (suc (suc (suc (suc (suc zero))))) h = refl
read-digit n (suc (suc (suc (suc (suc (suc zero)))))) h = refl
read-digit n (suc (suc (suc (suc (suc (suc (suc zero))))))) h = refl
read-digit n (suc (suc (suc (suc (suc (suc (suc (suc zero)))))))) h = refl
read-digit n (suc (suc (suc (suc (suc (suc (suc (suc (suc zero))))))))) h = refl
read-digit n (suc (suc (suc (suc (suc (suc (suc (suc (suc (suc d)))))))))) h = absurd (omega arith)

read-decimal_from : (f n : ℕ) → n < f → read 0 (codes (decimal_from f n)) ≡ n
unfolding decimal_from
read-decimal_from zero n h = omega arith
read-decimal_from (suc f) n h = elim (Bool-cases (ltb n 10)) [
  | inl small ↦ rw small (read-digit 0 n (ground arith) ∙ omega arith)
  | inr large ↦
      rw (large, codes-append, read-append, read-decimal_from f (n / 10) (ground arith))
        (read-digit (n / 10) (n % 10) (omega arith) ∙ omega arith)
]

-- The digits of the decimal text of a number denote it; in particular the rounds are enough.
pub read-decimal : (n : ℕ) → read 0 (codes (decimal n)) ≡ n
unfolding decimal
read-decimal n = read-decimal_from (suc n) n (omega arith)

pub decimal-injective : (m n : ℕ) → decimal m ≡ decimal n → m ≡ n
decimal-injective m n h = sym (read-decimal m) ∙ ap (λ s. read 0 (codes s)) h ∙ read-decimal n

abbrev pub is_digit : ℕ → Bool
is_digit c = leb b'0' c && ltb c (suc b'9')

abbrev pub all_digits : List ℕ → Bool
all_digits [] = true
all_digits (c ∷ cs) = is_digit c && all_digits cs

all_digits-append :
    (xs ys : List ℕ) → all_digits xs ≡ true → all_digits ys ≡ true → all_digits (xs ++ ys) ≡ true
all_digits-append [] ys h k = k
all_digits-append (x ∷ xs) ys h k = elim (Bool-cases (is_digit x)) [
  | inl e ↦ rw e (all_digits-append xs ys (rw e at h) k)
  | inr e ↦ absurd (false≢true (rw e at h))
]

all_digits-digit : (d : ℕ) → all_digits (codes (digit d)) ≡ true
all_digits-digit zero = refl
all_digits-digit (suc zero) = refl
all_digits-digit (suc (suc zero)) = refl
all_digits-digit (suc (suc (suc zero))) = refl
all_digits-digit (suc (suc (suc (suc zero)))) = refl
all_digits-digit (suc (suc (suc (suc (suc zero))))) = refl
all_digits-digit (suc (suc (suc (suc (suc (suc zero)))))) = refl
all_digits-digit (suc (suc (suc (suc (suc (suc (suc zero))))))) = refl
all_digits-digit (suc (suc (suc (suc (suc (suc (suc (suc zero)))))))) = refl
all_digits-digit (suc (suc (suc (suc (suc (suc (suc (suc (suc d))))))))) = refl

all_digits-decimal_from : (f n : ℕ) → all_digits (codes (decimal_from f n)) ≡ true
unfolding decimal_from
all_digits-decimal_from zero n = refl
all_digits-decimal_from (suc f) n = elim (Bool-cases (ltb n 10)) [
  | inl small ↦ rw small (all_digits-digit n)
  | inr large ↦
      rw (large, codes-append (decimal_from f (n / 10)) (digit (n % 10)))
        (all_digits-append (codes (decimal_from f (n / 10))) _ (all_digits-decimal_from f (n / 10))
          (all_digits-digit (n % 10)))
]

-- A decimal text is made of digits.
pub all_digits-decimal : (n : ℕ) → all_digits (codes (decimal n)) ≡ true
unfolding decimal
all_digits-decimal n = all_digits-decimal_from (suc n) n

all_digits-head : (c : ℕ) (cs : List ℕ) → all_digits (c ∷ cs) ≡ true → is_digit c ≡ true
all_digits-head c cs h = elim (Bool-cases (is_digit c)) [
  | inl e ↦ e
  | inr e ↦ absurd (false≢true (rw e at h))
]

abbrev pub starts_with_digit : List ℕ → Bool
starts_with_digit [] = false
starts_with_digit (c ∷ cs) = is_digit c

decimal-starts_with_digit :
    (n : ℕ) (xs : List ℕ) → codes (decimal n) ≡ xs → starts_with_digit xs ≡ true
unfolding decimal decimal_from
decimal-starts_with_digit n [] h =
    let zero_lem = sym (read-decimal n) ∙ ap (read 0) h in
    ap starts_with_digit (sym (subst (λ k. codes (decimal k) ≡ []) zero_lem h))
decimal-starts_with_digit n (c ∷ cs) h = all_digits-head c cs (rw h at (all_digits-decimal n))

-- It starts with one.
pub starts_with_digit-decimal : (n : ℕ) → starts_with_digit (codes (decimal n)) ≡ true
starts_with_digit-decimal n = decimal-starts_with_digit n (codes (decimal n)) refl
