-- ===== src/Controller/EnvVars/Prefixes.antt =====
-- The prefixes of the database variables.
use Prim.Native.Char.{Char, code, char}
use Prim.Native.String.append
use backup_operator.Base.{◌≡◌, refl, sym, ap, ◌∙◌, String, ◌<>◌, eqb, if◌then◌else◌}
use backup_operator.Controller.EnvVars.{replace_dashes, env_prefix}

abbrev replace_dash : Char → Char
replace_dash c = if eqb (code c) b'-' then char b'_' tt else c

replace_first :
    (c : Char) (t : String)
    → replace_dashes (String.◌∷◌ c String.[] <> t) ≡ String.◌∷◌ (replace_dash c) (replace_dashes t)
unfolding replace_dashes
replace_first c t = rw (append.cons c String.[] t, append.nil t) refl

dash_or_underscore :
    (s t : String) → replace_dashes (s <> ("-" <> t)) ≡ replace_dashes (s <> ("_" <> t))
unfolding replace_dashes
dash_or_underscore String.[] t =
    ap replace_dashes (append.nil ("-" <> t))
    ∙ replace_first "-" t
    ∙ sym (replace_first "_" t)
    ∙ sym (ap replace_dashes (append.nil ("_" <> t)))
dash_or_underscore (String.◌∷◌ c s) t =
    rw (append.cons c s ("-" <> t), append.cons c s ("_" <> t))
      (ap (String.◌∷◌ (replace_dash c)) (dash_or_underscore s t))

-- The prefix does not tell a dash from an underscore: two targets whose names differ in that alone
-- get the same prefix, whatever the case mapping of the characters is.
pub env_prefix_collides :
    (upper : Char → Char) (s t : String)
    → env_prefix upper (s <> ("-" <> t)) ≡ env_prefix upper (s <> ("_" <> t))
unfolding env_prefix
env_prefix_collides upper s t = rw (dash_or_underscore s t) refl
