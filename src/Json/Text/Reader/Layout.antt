-- ===== src/Json/Text/Reader/Layout.antt =====
-- The lines of a text, and the texts of items and fields with what follows them.
use mathlib.Core.List.{append_assoc}
use backup_operator.Base.{
  ◌≡◌, refl, ℕ, zero, suc, false, List, [], ◌∷◌, ◌++◌, String, codes, codes-append, eqb,
  starts_with_digit,
}
use backup_operator.Json.{Value, array, object, Items, nil, item, Fields, end, field}
use backup_operator.Json.Text.{escape, quoted, line, render, render_items, render_fields}
use backup_operator.Json.Text.Reader.{skip, head_is}

-- A line starts like the one a level out, with two spaces more.
pub line-suc : (d : ℕ) (l : List ℕ) → codes (line (suc d)) ++ l ≡ codes (line d) ++ (32 ∷ 32 ∷ l)
unfolding line
line-suc d l = rw codes-append (append_assoc (codes (line d)) (32 ∷ 32 ∷ []) l)

pub skip-line : (d : ℕ) (l : List ℕ) → skip (codes (line d) ++ l) ≡ skip l
unfolding skip line
skip-line zero l = refl
skip-line (suc d) l = rw line-suc (skip-line d (32 ∷ 32 ∷ l))

pub head_is-line : (k d : ℕ) (l : List ℕ) → head_is k (codes (line d) ++ l) ≡ eqb 10 k
unfolding line
head_is-line k zero l = refl
head_is-line k (suc d) l = rw line-suc (head_is-line k d (32 ∷ 32 ∷ l))

pub starts_with_digit-line : (d : ℕ) (l : List ℕ) → starts_with_digit (codes (line d) ++ l) ≡ false
unfolding line
starts_with_digit-line zero l = refl
starts_with_digit-line (suc d) l = rw line-suc (starts_with_digit-line d (32 ∷ 32 ∷ l))

module _ (d : ℕ) (rest : List ℕ) where
  abbrev pub items_text : Items → List ℕ
  items_text vs = codes (render_items d vs) ++ (codes (line d) ++ b']' ∷ rest)

  abbrev pub fields_text : Fields → List ℕ
  fields_text fs = codes (render_fields d fs) ++ (codes (line d) ++ b'}' ∷ rest)

  -- The first item, from what is in front of it.
  abbrev pub item_text : ℕ → Value → Items → List ℕ
  item_text c v vs = c ∷ (codes (line (suc d)) ++ (codes (render (suc d) v) ++ items_text vs))

  pub items_text-nil : items_text nil ≡ codes (line d) ++ b']' ∷ rest
  unfolding render_items
  items_text-nil = refl

  pub items_text-item : (v : Value) (vs : Items) → items_text (item v vs) ≡ item_text b',' v vs
  unfolding render_items
  items_text-item v vs = simp (codes-append, append_assoc)

  pub starts_with_digit-items_text : (vs : Items) → starts_with_digit (items_text vs) ≡ false
  starts_with_digit-items_text nil = rw items_text-nil (starts_with_digit-line d _)
  starts_with_digit-items_text (item v vs) = rw (items_text-item v vs) refl

  pub array_text :
      (v : Value) (vs : Items) → codes (render d (array (item v vs))) ++ rest ≡ item_text b'[' v vs
  unfolding render
  array_text v vs = simp (codes-append, append_assoc)

module _ (d : ℕ) (rest : List ℕ) where
  abbrev pub field_text : ℕ → String → Value → Fields → List ℕ
  field_text c k v fs =
      c
      ∷ (codes (line (suc d))
          ++ (b'"'
              ∷ (codes (escape k)
                  ++ (b'"'
                      ∷ (b':' ∷ (b' ' ∷ (codes (render (suc d) v) ++ fields_text d rest fs)))))))

  pub fields_text-end : fields_text d rest end ≡ codes (line d) ++ b'}' ∷ rest
  unfolding render_fields
  fields_text-end = refl

  pub fields_text-field :
      (k : String) (v : Value) (fs : Fields)
      → fields_text d rest (field k v fs) ≡ field_text b',' k v fs
  unfolding render_fields quoted
  fields_text-field k v fs = simp (codes-append, append_assoc)

  pub starts_with_digit-fields_text :
      (fs : Fields) → starts_with_digit (fields_text d rest fs) ≡ false
  starts_with_digit-fields_text end = rw fields_text-end (starts_with_digit-line d _)
  starts_with_digit-fields_text (field k v fs) = rw (fields_text-field k v fs) refl

  pub object_text :
      (k : String) (v : Value) (fs : Fields)
      → codes (render d (object (field k v fs))) ++ rest ≡ field_text b'{' k v fs
  unfolding render quoted
  object_text k v fs = simp (codes-append, append_assoc)
