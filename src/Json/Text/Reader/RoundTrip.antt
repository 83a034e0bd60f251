-- ===== src/Json/Text/Reader/RoundTrip.antt =====
-- Every value is read back from its text, so the text determines it.
use mathlib.Core.List.{append_assoc}
use mathlib.Core.Bool.{false≢true}
use mathlib.Core.Option.{some-injective}
use backup_operator.Base.{
  ◌≡◌, refl, sym, ap, ◌∙◌, ℕ, zero, suc, ◌+◌, ℤ, pos, negsuc, Bool, true, false, ◌||◌, some, List,
  [], ◌∷◌, ◌++◌, String, ◌<>◌, codes, codes-append, decimal, itoa, eqb, arith, starts_with_digit,
  starts_with_digit-decimal,
}
use backup_operator.Json.{
  Value, null, bool, number, text, array, object, Items, nil, item, Fields, end, field,
}
use backup_operator.Json.Text.{escape, quoted, render, marshal_indent}
use backup_operator.Json.Text.Escapes.{read_text, read_text-escape}
use backup_operator.Json.Text.Numbers.{read_number, read_number-itoa}
use backup_operator.Json.Text.Reader.{
  Reader, skip, drop, in_number, as_number, read_start, read_value, read_items, read_fields, size,
}
use backup_operator.Json.Text.Reader.Layout.{items_text-item, fields_text-field}
use backup_operator.Json.Text.Reader.Nested.{
  ReadsValue, ReadsItems, ReadsFields, read_items-item, read_fields-field, read_items-nil,
  read_fields-end, read_value-array, read_value-object,
}

abbrev starts_number : List ℕ → Bool
starts_number [] = false
starts_number (c ∷ l) = in_number c

starts_number-digit : (xs l : List ℕ) → starts_with_digit xs ≡ true → starts_number (xs ++ l) ≡ true
starts_number-digit [] l h = absurd (false≢true h)
starts_number-digit (c ∷ xs) l h = rw h refl

starts_number-itoa : (z : ℤ) (l : List ℕ) → starts_number (codes (itoa z) ++ l) ≡ true
unfolding itoa
starts_number-itoa (pos n) l =
    starts_number-digit (codes (decimal n)) l (starts_with_digit-decimal n)
starts_number-itoa (negsuc n) l = rw codes-append refl

read_start-number :
    (t : Reader String) (vs : Reader Items) (fs : Reader Fields) (l : List ℕ)
    → starts_number l ≡ true
    → read_start t vs fs (skip l) ≡ as_number (read_number l)
unfolding skip
read_start-number t vs fs [] h = absurd (false≢true h)
read_start-number t vs fs (c ∷ l) h = rw (not_blank c h, h) refl
  where
    not_blank : (c : ℕ) → in_number c ≡ true → eqb c b' ' || eqb c 10 ≡ false
    not_blank c h = ground arith

read_value-number : (z : ℤ) → ReadsValue (number z)
unfolding read_value size render
read_value-number z d zero rest free h = absurd (omega arith)
read_value-number z d (suc f) rest free h =
    read_start-number (read_text f) (read_items f) (read_fields f) (codes (itoa z) ++ rest)
      (starts_number-itoa z rest)
    ∙ ap as_number (read_number-itoa z rest free)

read_value-text : (s : String) → ReadsValue (text s)
unfolding read_value size render quoted skip drop
read_value-text s d zero rest free h = absurd (omega arith)
read_value-text s d (suc f) rest free h =
    rw
      (
        codes-append "\"" (escape s <> "\""),
        codes-append (escape s) "\"",
        append_assoc (codes (escape s)) (b'"' ∷ []) rest,
        read_text-escape s f rest (omega arith),
      )
      refl

read_value-constant :
    (v : Value)
    → ((d f : ℕ) (rest : List ℕ) → read_value (suc f) (codes (render d v) ++ rest) ≡ some (v, rest))
    → ReadsValue v
read_value-constant v e d zero rest free h = absurd (omega arith)
read_value-constant v e d (suc f) rest free h = e d f rest

read_value-bool : (b : Bool) → ReadsValue (bool b)
unfolding read_value render skip drop
read_value-bool true = read_value-constant _ λ d f rest. refl
read_value-bool false = read_value-constant _ λ d f rest. refl

-- A value is read off the front of any text that its own text starts, at any depth and in as many
-- rounds as its size asks for, if no digit follows it.
read_value-render : (v : Value) → ReadsValue v
unfolding read_value render skip drop
read_value-render v =
    elim v
      as ReadsValue (λ vs. ReadsItems vs × ReadsValue (array vs)) (λ fs.
        ReadsFields fs × ReadsValue (object fs)) [
          | null ↦ read_value-constant _ λ d f rest. refl
          | bool b ↦ read_value-bool b
          | number z ↦ read_value-number z
          | text s ↦ read_value-text s
          | array (vs → ih) ↦ ih.1
          | object (fs → ih) ↦ ih.1
          | nil ↦ (read_items-nil, read_value-constant _ λ d f rest. refl)
          | item (v → ih) (vs → ihs) ↦ (
            λ d f rest h.
                rw items_text-item (read_items-item v vs ih ihs.0 b',' d f rest refl refl h),
            read_value-array v vs ih ihs.0,
          )
          | end ↦ (read_fields-end, read_value-constant _ λ d f rest. refl)
          | field k (v → ih) (fs → ihs) ↦ (
            λ d f rest h.
                rw fields_text-field (read_fields-field k v fs ih ihs.0 b',' d f rest refl refl h),
            read_value-object k v fs ih ihs.0,
          )
        ]

-- The text of a value determines it.
pub marshal_indent-injective : (v w : Value) → marshal_indent v ≡ marshal_indent w → v ≡ w
unfolding marshal_indent
marshal_indent-injective v w h =
    let f = suc (size v + size w) in
    let read_v = read_value-render v zero f [] refl (omega arith) in
    let read_w = read_value-render w zero f [] refl (omega arith) in
    let same = ap (λ s. read_value f (codes s ++ [])) h in
    ap (λ p. p.0) (some-injective _ _ (sym read_v ∙ same ∙ read_w))
