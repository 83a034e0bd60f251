-- ===== src/Json/Text/Reader/Nested.antt =====
-- Items and fields, read from the text of the values in them.

use backup_operator.Base.{
  ◌≡◌, refl, ℕ, zero, suc, ◌<◌, false, ◌||◌, some, List, ◌∷◌, ◌++◌, String, codes, eqb, arith,
  starts_with_digit,
}
use backup_operator.Json.{Value, array, object, Items, nil, item, Fields, end, field}
use backup_operator.Json.Text.{escape, line, render}
use backup_operator.Json.Text.Escapes.{read_text-escape}
use backup_operator.Json.Text.Reader.{
  skip, drop, read_value, read_items, read_fields, size, size_items, size_fields,
}
use backup_operator.Json.Text.Reader.Layout.{
  skip-line, head_is-line, items_text, fields_text, item_text, items_text-nil,
  starts_with_digit-items_text, array_text, field_text, fields_text-end,
  starts_with_digit-fields_text, object_text,
}

pub read_value-line : (d f : ℕ) (l : List ℕ) → read_value f (codes (line d) ++ l) ≡ read_value f l
unfolding read_value
read_value-line d zero l = refl
read_value-line d (suc f) l = rw (skip-line d l) refl

pub read_items-line : (d f : ℕ) (l : List ℕ) → read_items f (codes (line d) ++ l) ≡ read_items f l
unfolding read_items
read_items-line d zero l = refl
read_items-line d (suc f) l = rw (skip-line d l) refl

pub read_fields-line :
    (d f : ℕ) (l : List ℕ) → read_fields f (codes (line d) ++ l) ≡ read_fields f l
unfolding read_fields
read_fields-line d zero l = refl
read_fields-line d (suc f) l = rw (skip-line d l) refl

abbrev pub ReadsValue : Value → Type 0
ReadsValue v =
    (d f : ℕ) (rest : List ℕ)
    → starts_with_digit rest ≡ false
    → size v < f
    → read_value f (codes (render d v) ++ rest) ≡ some (v, rest)

abbrev pub ReadsItems : Items → Type 0
ReadsItems vs =
    (d f : ℕ) (rest : List ℕ)
    → size_items vs < f
    → read_items f (items_text d rest vs) ≡ some (vs, rest)

abbrev pub ReadsFields : Fields → Type 0
ReadsFields fs =
    (d f : ℕ) (rest : List ℕ)
    → size_fields fs < f
    → read_fields f (fields_text d rest fs) ≡ some (fs, rest)

pub read_items-item :
    (v : Value) (vs : Items)
    → ReadsValue v
    → ReadsItems vs
    → (c d f : ℕ) (rest : List ℕ) → eqb c b' ' || eqb c 10 ≡ false
    → eqb c b']' ≡ false
    → size_items (item v vs) < f
    → read_items f (item_text d rest c v vs) ≡ some (item v vs, rest)
unfolding read_items size skip drop
read_items-item v vs value items c d zero rest blank close h = absurd (omega arith)
read_items-item v vs value items c d (suc f) rest blank close h =
    rw
      (
        blank,
        close,
        read_value-line (suc d) f (codes (render (suc d) v) ++ items_text d rest vs),
        value (suc d) f (items_text d rest vs) (starts_with_digit-items_text d rest vs)
            (omega arith),
        items d f rest (omega arith),
      )
      refl

pub read_fields-field :
    (k : String) (v : Value) (fs : Fields)
    → ReadsValue v
    → ReadsFields fs
    → (c d f : ℕ) (rest : List ℕ) → eqb c b' ' || eqb c 10 ≡ false
    → eqb c b'}' ≡ false
    → size_fields (field k v fs) < f
    → read_fields f (field_text d rest c k v fs) ≡ some (field k v fs, rest)
unfolding read_fields size skip drop
read_fields-field k v fs value fields c d zero rest blank close h = absurd (omega arith)
read_fields-field k v fs value fields c d (suc f) rest blank close h =
    rw
      (
        blank,
        close,
        skip-line (suc d) (
            b'"'
            ∷ (codes (escape k)
                ++ (b'"' ∷ (b':' ∷ (b' ' ∷ (codes (render (suc d) v) ++ fields_text d rest fs)))))),
        read_text-escape k f (b':' ∷ (b' ' ∷ (codes (render (suc d) v) ++ fields_text d rest fs)))
            (omega arith),
        value (suc d) f (fields_text d rest fs) (starts_with_digit-fields_text d rest fs)
            (omega arith),
        fields d f rest (omega arith),
      )
      refl

pub read_items-nil : ReadsItems nil
unfolding read_items skip drop
read_items-nil d zero rest h = absurd (omega arith)
read_items-nil d (suc f) rest h = rw items_text-nil (read_items-line d (suc f) (b']' ∷ rest))

pub read_fields-end : ReadsFields end
unfolding read_fields skip drop
read_fields-end d zero rest h = absurd (omega arith)
read_fields-end d (suc f) rest h = rw fields_text-end (read_fields-line d (suc f) (b'}' ∷ rest))

pub read_value-array :
    (v : Value) (vs : Items) → ReadsValue v → ReadsItems vs → ReadsValue (array (item v vs))
unfolding read_value size skip drop
read_value-array v vs value items d zero rest free h = absurd (omega arith)
read_value-array v vs value items d (suc f) rest free h =
    rw
      (
        array_text d rest v vs,
        head_is-line b']' (suc d) (codes (render (suc d) v) ++ items_text d rest vs),
        head_is-line b'}' (suc d) (codes (render (suc d) v) ++ items_text d rest vs),
        read_items-item v vs value items b'[' d f rest refl refl (omega arith),
      )
      refl

pub read_value-object :
    (k : String) (v : Value) (fs : Fields)
    → ReadsValue v
    → ReadsFields fs
    → ReadsValue (object (field k v fs))
unfolding read_value size skip drop
read_value-object k v fs value fields d zero rest free h = absurd (omega arith)
read_value-object k v fs value fields d (suc f) rest free h =
    rw
      (
        object_text d rest k v fs,
        head_is-line b']' (suc d) _,
        head_is-line b'}' (suc d) _,
        read_fields-field k v fs value fields b'{' d f rest refl refl (omega arith),
      )
      refl
