-- ===== src/Json/Text.antt =====
-- `json.MarshalIndent(v, "", "  ")`: two spaces a level, and the escapes of encoding/json.
pub mod Characters
pub mod Escapes
pub mod Numbers
pub mod Reader
use Prim.Native.Char.{Char, code}
use backup_operator.Base.{
  ℕ, zero, suc, ◌-◌, ◌/◌, ◌%◌, String, ◌<>◌, ◌||◌, itoa, digit, ltb, eqb, if◌then◌else◌,
}
use backup_operator.Json.{
  Value, null, bool, number, text, array, object, Items, nil, item, Fields, end, field,
}

abbrev pub hex_letter : ℕ → String
hex_letter zero = "a"
hex_letter (suc zero) = "b"
hex_letter (suc (suc zero)) = "c"
hex_letter (suc (suc (suc zero))) = "d"
hex_letter (suc (suc (suc (suc zero)))) = "e"
hex_letter _ = "f"

abbrev pub hex : ℕ → String
hex n = if ltb n 10 then digit n else hex_letter (n - 10)

-- The escape of a character; texts are valid UTF-8.
unfoldable pub escape_char : Char → String
escape_char c =
    let n = code c in
    if eqb n b'"'
    then "\\\""
    else if eqb n b'\\'
    then "\\\\"
    else if eqb n 8
    then "\\b"
    else if eqb n 12
    then "\\f"
    else if eqb n 10
    then "\\n"
    else if eqb n 13
    then "\\r"
    else if eqb n 9
    then "\\t"
    else if ltb n 32 || eqb n b'<' || eqb n b'>' || eqb n b'&'
    then "\\u00" <> (hex (n / 16) <> hex (n % 16))
    else if eqb n 0x2028 || eqb n 0x2029
    then "\\u202" <> hex (n % 16)
    else String.◌∷◌ c ""

unfoldable pub escape : String → String
unfolding escape_char
escape String.[] = ""
escape (String.◌∷◌ c s) = escape_char c <> escape s

unfoldable pub quoted : String → String
unfolding escape
quoted s = "\"" <> (escape s <> "\"")

-- The start of a line at a depth.
unfoldable pub line : ℕ → String
line zero = "\n"
line (suc d) = line d <> "  "

unfoldable mutual
  unfolding line quoted itoa

  pub render : ℕ → Value → String
  render d null = "null"
  render d (bool b) = if b then "true" else "false"
  render d (number n) = itoa n
  render d (text s) = quoted s
  render d (array nil) = "[]"
  render d (array (item v vs)) =
      "[" <> (line (suc d) <> (render (suc d) v <> (render_items d vs <> (line d <> "]"))))
  render d (object end) = "{}"
  render d (object (field k v fs)) =
      "{"
      <> (line (suc d)
          <> (quoted k <> (": " <> (render (suc d) v <> (render_fields d fs <> (line d <> "}"))))))

  -- What follows the first item or field.
  pub render_items : ℕ → Items → String
  render_items d nil = ""
  render_items d (item v vs) = "," <> (line (suc d) <> (render (suc d) v <> render_items d vs))

  pub render_fields : ℕ → Fields → String
  render_fields d end = ""
  render_fields d (field k v fs) =
      "," <> (line (suc d) <> (quoted k <> (": " <> (render (suc d) v <> render_fields d fs))))

unfoldable pub marshal_indent : Value → String
unfolding render
marshal_indent v = render zero v
