-- ===== src/Base/Lists.antt =====
-- Lists measured and indexed by native numbers, and predicates by recursion on a list.
use Prim.Native.Nat.{ℕ, zero, suc, ◌+◌, ◌-◌, ◌<◌}
use mathlib.Core.Path.{◌∙◌, ◌≡◌, refl}
use mathlib.Core.Bool.{Bool, true}
use mathlib.Core.Logic.{◌⊎◌, inl, inr}
use mathlib.Core.Option.{Option, none, some}
use mathlib.Core.List.{List, [], ◌∷◌, ◌++◌}
use native.Mathlib.Nat.{zero-add, suc-add}
use native.Mathlib.Omega.{arith}
use backup_operator.Base.Tests.{if◌then◌else◌, Bool-cases}

module _ {ℓ} {A : Type ℓ} where
  abbrev pub length : List A → ℕ
  length [] = 0
  length (x ∷ xs) = suc (length xs)

  abbrev pub drop : ℕ → List A → List A
  drop zero xs = xs
  drop (suc n) [] = []
  drop (suc n) (x ∷ xs) = drop n xs

  abbrev pub take : ℕ → List A → List A
  take zero xs = []
  take (suc n) [] = []
  take (suc n) (x ∷ xs) = x ∷ take n xs

  abbrev pub filter : (A → Bool) → List A → List A
  filter p [] = []
  filter p (x ∷ xs) = let rest = filter p xs in if p x then x ∷ rest else rest

  pub length-append : (xs ys : List A) → length (xs ++ ys) ≡ length xs + length ys
  length-append [] ys = omega arith
  length-append (x ∷ xs) ys = omega (arith, length-append xs ys)

  pub length-drop : (n : ℕ) (xs : List A) → length (drop n xs) ≡ length xs - n
  length-drop zero xs = omega arith
  length-drop (suc n) [] = omega arith
  length-drop (suc n) (x ∷ xs) = omega (arith, length-drop n xs)

module _ {ℓ κ} {A : Type ℓ} (P : A → Type κ) where
  abbrev pub All : List A → Type κ
  All [] = Unit
  All (x ∷ xs) = P x × All xs

module _ {ℓ κ} {A : Type ℓ} (P : A → Type κ) where
  pub All-append : (xs ys : List A) → All P xs → All P ys → All P (xs ++ ys)
  All-append [] ys hx hy = hy
  All-append (x ∷ xs) ys hx hy = (hx.0, All-append xs ys hx.1 hy)

module _ {ℓ} {A : Type ℓ} where
  abbrev pub get_elem? : List A → ℕ → Option A
  get_elem? [] i = none
  get_elem? (x ∷ xs) zero = some x
  get_elem? (x ∷ xs) (suc i) = get_elem? xs i

  -- A place of `x` in the list.
  abbrev pub Place : A → List A → Type ℓ
  Place x xs = (i : ℕ) × (get_elem? xs i ≡ some x)

  pub get_elem?-drop : (n i : ℕ) (xs : List A) → get_elem? (drop n xs) i ≡ get_elem? xs (n + i)
  get_elem?-drop zero i xs = rw zero-add
  get_elem?-drop (suc n) i [] = refl
  get_elem?-drop (suc n) i (x ∷ xs) = rw suc-add (get_elem?-drop n i xs)

  pub get_elem?-lt : (xs : List A) (i : ℕ) {x : A} → get_elem? xs i ≡ some x → i < length xs
  get_elem?-lt [] i h = cc
  get_elem?-lt (y ∷ xs) zero h = omega arith
  get_elem?-lt (y ∷ xs) (suc i) h = omega (arith, get_elem?-lt xs i h)

  get_elem?-append_left :
      (xs ys : List A) (i : ℕ) {x : A} → get_elem? xs i ≡ some x → get_elem? (xs ++ ys) i ≡ some x
  get_elem?-append_left [] ys i h = cc
  get_elem?-append_left (y ∷ xs) ys zero h = h
  get_elem?-append_left (y ∷ xs) ys (suc i) h = get_elem?-append_left xs ys i h

  get_elem?-append_right :
      (xs ys : List A) (i : ℕ) → get_elem? (xs ++ ys) (length xs + i) ≡ get_elem? ys i
  get_elem?-append_right [] ys i = rw zero-add
  get_elem?-append_right (x ∷ xs) ys i = rw suc-add (get_elem?-append_right xs ys i)

  -- What stands in both lists stands twice in the two together.
  pub Place-twice :
      (xs ys : List A) {x : A}
      → Place x xs
      → Place x ys
      → (i : ℕ) × (j : ℕ) × (i < j)
        × (get_elem? (xs ++ ys) i ≡ some x)
        × (get_elem? (xs ++ ys) j ≡ some x)
  Place-twice xs ys (i, h) (j, k) = (
    i,
    length xs + j,
    omega (arith, get_elem?-lt xs i h),
    get_elem?-append_left xs ys i h,
    get_elem?-append_right xs ys j ∙ k,
  )

  pub Place-append : (xs ys : List A) {x : A} → Place x (xs ++ ys) → Place x xs ⊎ Place x ys
  Place-append [] ys p = inr p
  Place-append (y ∷ xs) ys (zero, h) = inl (zero, h)
  Place-append (y ∷ xs) ys (suc i, h) = elim (Place-append xs ys (i, h)) [
    | inl (j, k) ↦ inl (suc j, k)
    | inr q ↦ inr q
  ]

  pub Place-append_left : (xs ys : List A) {x : A} → Place x xs → Place x (xs ++ ys)
  Place-append_left [] ys (i, h) = absurd (cc)
  Place-append_left (y ∷ xs) ys (zero, h) = (zero, h)
  Place-append_left (y ∷ xs) ys (suc i, h) =
      let (j, k) = Place-append_left xs ys (i, h) in (suc j, k)

  pub Place-append_right : (xs ys : List A) {x : A} → Place x ys → Place x (xs ++ ys)
  Place-append_right [] ys p = p
  Place-append_right (y ∷ xs) ys p = let (j, k) = Place-append_right xs ys p in (suc j, k)

  Place-filter_cons :
      (p : A → Bool) (x y : A) (xs : List A)
      → p y ≡ true
      → (Place x (filter p xs) → Place x xs × (p x ≡ true))
      → Place x (y ∷ filter p xs)
      → Place x (y ∷ xs) × (p x ≡ true)
  Place-filter_cons p x y xs keep rest (zero, h) = ((zero, h), cc)
  Place-filter_cons p x y xs keep rest (suc i, h) =
      let (later, good) = rest (i, h) in ((suc later.0, later.1), good)

  pub Place-filter :
      (p : A → Bool) (x : A) (xs : List A) → Place x (filter p xs) → Place x xs × (p x ≡ true)
  Place-filter p x [] (i, h) = absurd (cc)
  Place-filter p x (y ∷ xs) q = elim (Bool-cases (p y)) [
    | inl keep ↦ Place-filter_cons p x y xs keep (Place-filter p x xs) (rw keep at q)
    | inr skip ↦
        let (later, good) = Place-filter p x xs (rw skip at q) in ((suc later.0, later.1), good)
  ]

  pub Place-filter_of :
      (p : A → Bool) (x : A) (xs : List A) → Place x xs → p x ≡ true → Place x (filter p xs)
  Place-filter_of p x [] (i, h) good = absurd (cc)
  Place-filter_of p x (y ∷ xs) (zero, h) good = let keep : p y ≡ true = cc in rw keep (zero, h)
  Place-filter_of p x (y ∷ xs) (suc i, h) good =
      let (j, k) = Place-filter_of p x xs (i, h) good in
      elim (Bool-cases (p y)) [ inl keep ↦ rw keep (suc j, k) | inr skip ↦ rw skip (j, k) ]
