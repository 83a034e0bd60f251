-- ===== src/Json.antt =====
-- JSON values, the objects that encoding/json makes of structs, and the text of MarshalIndent.
pub mod Text
pub mod Lookup
pub mod Targets
pub mod Storage
use backup_operator.Base.{
  ℤ, String, Bool, true, false, Option, none, some, List, [], ◌∷◌, ◌==◌, is_empty, map,
  if◌then◌else◌,
}

-- A number of a struct is an integer.
mutual
  pub data Value : Type 0 where
    null : Value
    bool : Bool → Value
    number : ℤ → Value
    text : String → Value
    array : Items → Value
    object : Fields → Value

  pub data Items : Type 0 where
    nil : Items
    item : Value → Items → Items

  pub data Fields : Type 0 where
    end : Fields
    field : String → Value → Fields → Fields

-- The fields of a struct by their tags; `none` is one that `omitempty` leaves out.
abbrev pub Entries : Type 0
Entries = List (String × Option Value)

unfoldable pub present : Entries → Fields
present [] = end
present ((k, none) ∷ es) = present es
present ((k, some v) ∷ es) = field k v (present es)

unfoldable pub struct : Entries → Value
unfolding present
struct es = object (present es)

-- `omitempty` at a text, a number, a Boolean and a list; a nil pointer is left out likewise.
abbrev pub omit_text : String → Option Value
omit_text s = if is_empty s then none else some (text s)

abbrev pub omit_false : Bool → Option Value
omit_false true = some (bool true)
omit_false false = none

module _ {ℓ} {A : Type ℓ} (encode : A → Value) where
  abbrev pub omit_nil : Option A → Option Value
  omit_nil none = none
  omit_nil (some a) = some (encode a)

  unfoldable pub items : List A → Items
  items [] = nil
  items (x ∷ xs) = item (encode x) (items xs)

  abbrev pub omit_empty : List A → Option Value
  omit_empty [] = none
  omit_empty (x ∷ xs) = some (array (items (x ∷ xs)))

  -- A list without `omitempty`; the empty one is the nil slice, as an absent field is read.
  unfoldable pub slice : List A → Value
  slice [] = null
  slice (x ∷ xs) = array (items (x ∷ xs))
