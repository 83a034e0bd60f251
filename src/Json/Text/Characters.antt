-- ===== src/Json/Text/Characters.antt =====
-- The character of a code point.
use Prim.Native.Nat.{Ordering, compare}
use Prim.Native.Char.{Char, char, code, nul, IsLt}
use text.Mathlib.TextEquality.{Char-path}
use backup_operator.Base.{◌≡◌, refl, ℕ, ◌⊎◌, inl, inr}

-- The conditions of a Unicode scalar value, by the three comparisons that they are made of.
abbrev BothLt : Ordering → Ordering → Type 0
BothLt Ordering.lt o = IsLt o
BothLt Ordering.eq _ = ⊥
BothLt Ordering.gt _ = ⊥

abbrev ScalarBy : Ordering → Ordering → Ordering → Type 0
ScalarBy Ordering.lt _ _ = Unit
ScalarBy Ordering.eq o p = BothLt o p
ScalarBy Ordering.gt o p = BothLt o p

abbrev dec_lt_of : (o : Ordering) → IsLt o ⊎ ¬ IsLt o
dec_lt_of Ordering.lt = inl tt
dec_lt_of Ordering.eq = inr λ h. h
dec_lt_of Ordering.gt = inr λ h. h

abbrev dec_both : (o p : Ordering) → BothLt o p ⊎ ¬ BothLt o p
dec_both Ordering.lt p = dec_lt_of p
dec_both Ordering.eq _ = inr λ h. h
dec_both Ordering.gt _ = inr λ h. h

abbrev dec_scalar : (o p q : Ordering) → ScalarBy o p q ⊎ ¬ ScalarBy o p q
dec_scalar Ordering.lt _ _ = inl tt
dec_scalar Ordering.eq p q = dec_both p q
dec_scalar Ordering.gt p q = dec_both p q

-- The character of a code.
unfoldable pub char_of : ℕ → Char
char_of n = elim (dec_scalar (compare n 55296) (compare 57343 n) (compare n 1114112)) [
  | inl p ↦ char n p
  | inr _ ↦ nul
]

pub char_of-code : (c : Char) → char_of (code c) ≡ c
unfolding char_of
char_of-code (char n p) =
    elim (dec_scalar (compare n 55296) (compare 57343 n) (compare n 1114112))
      as (λ r. elim r [ inl p ↦ char n p | inr _ ↦ nul ] ≡ char n p) [
        | inl q ↦ Char-path _ _ refl
        | inr r ↦ absurd (r p)
      ]
