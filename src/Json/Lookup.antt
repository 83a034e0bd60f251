-- ===== src/Json/Lookup.antt =====
-- Reading the fields of a JSON object by their names.
use mathlib.Core.Path.{fun_ext}
use mathlib.Core.Option
use backup_operator.Base.{
  ◌≡◌, refl, sym, ap, ◌∙◌, ℤ, String, Bool, Bool-cases, inl, inr, true, false, not, ◌&&◌, Option,
  none, some, List, [], ◌∷◌, All, ◌==◌, eq_iff, is_empty, if◌then◌else◌, arith,
}
use backup_operator.Kube.Keys.{true-not_false}
use backup_operator.Json.{
  Value, null, bool, number, text, array, Items, nil, item, Fields, end, field, Entries, present,
  omit_text, omit_false, omit_nil, omit_empty, items, slice,
}

-- The first field of a name.
unfoldable pub get : String → Fields → Option Value
get k end = none
get k (field j v fs) = if j == k then some v else get k fs

abbrev pub find : String → Entries → Option Value
find k [] = none
find k ((j, v) ∷ es) = if j == k then v else find k es

abbrev pub has_key : String → Entries → Bool
has_key k [] = false
has_key k ((j, v) ∷ es) = if j == k then true else has_key k es

abbrev pub distinct : Entries → Bool
distinct [] = true
distinct ((k, v) ∷ es) = not (has_key k es) && distinct es

find_missing : (k : String) (es : Entries) → has_key k es ≡ false → find k es ≡ none
find_missing k [] h = refl
find_missing k ((j, v) ∷ es) h = elim (Bool-cases (j == k)) [
  | inl here ↦ absurd (true-not_false (rw here at h))
  | inr there ↦ rw there (find_missing k es (rw there at h))
]

get-present : (k : String) (es : Entries) → distinct es ≡ true → get k (present es) ≡ find k es
unfolding get present
get-present k [] h = refl
get-present k ((j, none) ∷ es) h = elim (Bool-cases (j == k)) [
  | inl here ↦
      let same = (eq_iff j k).0 here in
      rw here (get-present k es (ground arith) ∙ find_missing k es (rw (sym same) (ground arith)))
  | inr there ↦ rw there (get-present k es (ground arith))
]
get-present k ((j, some v) ∷ es) h = elim (Bool-cases (j == k)) [
  | inl here ↦ rw here refl
  | inr there ↦ rw there (get-present k es (ground arith))
]

-- An object, as what its names stand for.
abbrev pub reader : Fields → String → Option Value
reader fs k = get k fs

abbrev pub finder : Entries → String → Option Value
finder es k = find k es

-- Where the names are distinct, the fields that are present are read as they were given.
pub reader-present : (es : Entries) → distinct es ≡ true → reader (present es) ≡ finder es
reader-present es h = fun_ext (λ k. get-present k es h)

infixl 5 ◌>>=◌
abbrev pub ◌>>=◌ {ℓ κ} : {A : Type ℓ} {B : Type κ} → Option A → (A → Option B) → Option B
none >>= f = none
some a >>= f = f a

-- A field as encoding/json reads it into a Go value: an absent one, and null, leave the zero value.
abbrev pub as_text : Option Value → Option String
as_text none = some ""
as_text (some null) = some ""
as_text (some (text s)) = some s
as_text (some _) = none

abbrev pub as_bool : Option Value → Option Bool
as_bool none = some false
as_bool (some null) = some false
as_bool (some (bool b)) = some b
as_bool (some _) = none

pub as_text-omit_text : (s : String) → as_text (omit_text s) ≡ some s
as_text-omit_text s = elim (Bool-cases (is_empty s)) [
  | inl empty ↦ rw empty (ap some (sym ((eq_iff s "").0 empty)))
  | inr full ↦ rw full refl
]

pub as_bool-omit_false : (b : Bool) → as_bool (omit_false b) ≡ some b
as_bool-omit_false true = refl
as_bool-omit_false false = refl

module _ {ℓ} {A : Type ℓ} (decode : Value → Option A) where
  -- A pointer to a value.
  abbrev pub as_pointer : Option Value → Option (Option A)
  as_pointer none = some none
  as_pointer (some null) = some none
  as_pointer (some v) = Option.map some (decode v)

  -- A value that must be there.
  abbrev pub as_value : Option Value → Option A
  as_value none = none
  as_value (some v) = decode v

  unfoldable pub each : Items → Option (List A)
  each nil = some []
  each (item v vs) = decode v >>= (λ x. each vs >>= (λ xs. some (x ∷ xs)))

  abbrev pub as_list : Option Value → Option (List A)
  as_list none = some []
  as_list (some null) = some []
  as_list (some (array vs)) = each vs
  as_list (some _) = none

  module _ (encode : A → Value) where
    -- An element that is read back.
    abbrev pub Reads : A → Type ℓ
    Reads a = decode (encode a) ≡ some a

    each-items : (xs : List A) → All Reads xs → each (items encode xs) ≡ some xs
    unfolding each items
    each-items [] all = refl
    each-items (x ∷ xs) (here, rest) = rw (here, each-items xs rest) refl

    pub as_list-slice : (xs : List A) → All Reads xs → as_list (some (slice encode xs)) ≡ some xs
    unfolding slice
    as_list-slice [] all = refl
    as_list-slice (x ∷ xs) all = each-items (x ∷ xs) all

    pub as_list-omit_empty : (xs : List A) → All Reads xs → as_list (omit_empty encode xs) ≡ some xs
    as_list-omit_empty [] all = refl
    as_list-omit_empty (x ∷ xs) all = each-items (x ∷ xs) all

  pub as_pointer-omit_nil :
      (encode : A → Value)
      → ((a : A) → as_pointer (some (encode a)) ≡ some (some a))
      → (o : Option A) → as_pointer (omit_nil encode o) ≡ some o
  as_pointer-omit_nil encode reads none = refl
  as_pointer-omit_nil encode reads (some a) = reads a

unfoldable pub number_of : Value → Option ℤ
number_of (number n) = some n
number_of _ = none

unfoldable pub text_of : Value → Option String
text_of (text s) = some s
text_of _ = none

unfoldable pub bool_of : Value → Option Bool
bool_of (bool b) = some b
bool_of _ = none
