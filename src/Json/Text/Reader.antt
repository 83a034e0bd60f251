-- ===== src/Json/Text/Reader.antt =====
-- The text of `json.MarshalIndent`, read back.
pub mod Layout
pub mod Nested
pub mod RoundTrip
use mathlib.Core.List.{append_assoc}
use mathlib.Core.Bool.{false≢true}
use mathlib.Core.Option.{some-injective}
use backup_operator.Base.{
  ◌≡◌, refl, sym, ap, ◌∙◌, ℕ, zero, suc, ◌+◌, ◌<◌, ℤ, pos, negsuc, Bool, Bool-cases, inl, inr, true,
  false, ◌||◌, Option, none, some, List, [], ◌∷◌, ◌++◌, String, ◌<>◌, codes, codes-append, decimal,
  itoa, eqb, arith, if◌then◌else◌, is_digit, starts_with_digit, starts_with_digit-decimal,
}
use backup_operator.Json.{
  Value, null, bool, number, text, array, object, Items, nil, item, Fields, end, field,
}
use backup_operator.Json.Text.{
  escape, quoted, line, render, render_items, render_fields, marshal_indent,
}
use backup_operator.Json.Text.Escapes.{read_text, letters, read_text-escape}
use backup_operator.Json.Text.Numbers.{read_number, read_number-itoa}

pub skip : List ℕ → List ℕ
skip [] = []
skip (c ∷ l) = let rest = skip l in if eqb c b' ' || eqb c 10 then rest else c ∷ l

pub drop : ℕ → List ℕ → List ℕ
drop zero l = l
drop (suc n) [] = []
drop (suc n) (c ∷ l) = drop n l

-- A character that starts a number.
abbrev pub in_number : ℕ → Bool
in_number c = is_digit c || eqb c b'-'

abbrev pub Reader {ℓ} : Type ℓ → Type ℓ
Reader A = List ℕ → Option (A × List ℕ)

module _ {ℓ κ} {A : Type ℓ} {B : Type κ} where
  abbrev pub next : Option (A × List ℕ) → (A → Reader B) → Option (B × List ℕ)
  next none f = none
  next (some (a, rest)) f = f a rest

abbrev pub head_is : ℕ → List ℕ → Bool
head_is k [] = false
head_is k (c ∷ l) = eqb c k

abbrev pub as_number : ℤ × List ℕ → Option (Value × List ℕ)
as_number (z, rest) = some (number z, rest)

-- A value by its first character, with readers for what is inside it.
abbrev pub read_start : Reader String → Reader Items → Reader Fields → Reader Value
read_start t vs fs [] = none
read_start t vs fs (c ∷ l) =
    if in_number c
    then as_number (read_number (c ∷ l))
    else if eqb c b'n'
    then some (null, drop 3 l)
    else if eqb c b't'
    then some (bool true, drop 3 l)
    else if eqb c b'f'
    then some (bool false, drop 4 l)
    else if eqb c b'"'
    then next (t l) (λ s rest. some (text s, drop 1 rest))
    else if head_is b']' l || head_is b'}' l
    then some (if eqb c b'[' then array nil else object end, drop 1 l)
    else if eqb c b'['
    then next (vs (c ∷ l)) (λ xs rest. some (array xs, rest))
    else next (fs (c ∷ l)) (λ xs rest. some (object xs, rest))

abbrev pub read_item : Reader Value → Reader Items → Reader Items
read_item v vs l =
    if head_is b']' l
    then some (nil, drop 1 l)
    else next (v (drop 1 l)) λ x rest. next (vs rest) λ xs after. some (item x xs, after)

abbrev pub read_field : Reader String → Reader Value → Reader Fields → Reader Fields
read_field t v fs l =
    if head_is b'}' l
    then some (end, drop 1 l)
    else next (t (drop 1 (skip (drop 1 l)))) λ k rest.
      next (v (drop 3 rest)) λ x behind. next (fs behind) λ xs after. some (field k x xs, after)

-- Items and fields are read from the bracket or the comma in front of them.
mutual
  pub read_value : ℕ → Reader Value
  read_value zero l = none
  read_value (suc f) l = read_start (read_text f) (read_items f) (read_fields f) (skip l)

  pub read_items : ℕ → Reader Items
  read_items zero l = none
  read_items (suc f) l = read_item (read_value f) (read_items f) (skip l)

  pub read_fields : ℕ → Reader Fields
  read_fields zero l = none
  read_fields (suc f) l = read_field (read_text f) (read_value f) (read_fields f) (skip l)

-- A bound on the rounds.
mutual
  pub size : Value → ℕ
  size null = zero
  size (bool b) = zero
  size (number z) = zero
  size (text s) = suc (letters s)
  size (array vs) = suc (size_items vs)
  size (object fs) = suc (size_fields fs)

  pub size_items : Items → ℕ
  size_items nil = zero
  size_items (item v vs) = suc (size v + size_items vs)

  pub size_fields : Fields → ℕ
  size_fields end = zero
  size_fields (field k v fs) = suc (letters k + size v + size_fields fs)
