-- ===== src/Webhook/Cron.antt =====
-- isValidCronSchedule of api/v1alpha1/backuptask_webhook.go: the anchored regular expression, and
-- what `regexp.MatchString` says of it.
pub mod Language
pub mod Numbers
pub mod Fields
use backup_operator.Base.{ℕ, Bool, true, false, String, List, [], ◌∷◌, eqb, leb, codes, ◌&&◌}

-- The operators that the expression uses: a character, a class `[lo-hi]`, `|` and juxtaposition.
pub data Regex : Type 0 where
  literal : ℕ → Regex
  range : ℕ → ℕ → Regex
  alt : Regex → Regex → Regex
  seq : Regex → Regex → Regex

-- Does some prefix of the text match, with a rest that `k` accepts?
unfoldable pub match : Regex → List ℕ → (List ℕ → Bool) → Bool
match (literal c) [] k = false
match (literal c) (d ∷ t) k = elim (eqb c d) [ true ↦ k t | false ↦ false ]
match (range lo hi) [] k = false
match (range lo hi) (d ∷ t) k = elim (leb lo d && leb d hi) [ true ↦ k t | false ↦ false ]
match (alt p q) t k = elim (match p t k) [ true ↦ true | false ↦ match q t k ]
match (seq p q) t k = match p t (λ rest. match q rest k)

-- `$`
abbrev pub at_end : List ℕ → Bool
at_end [] = true
at_end (c ∷ t) = false

-- `d[lo-hi]` with the digits of two-digit numbers, and `[lo-hi]`.
abbrev pub tens : ℕ → ℕ → ℕ → Regex
tens d lo hi = seq (literal d) (range lo hi)

abbrev pub minute_number : Regex
minute_number = alt (range b'0' b'9') (
    alt (tens b'1' b'0' b'9') (
      alt (tens b'2' b'0' b'9')
        (alt (tens b'3' b'0' b'9') (alt (tens b'4' b'0' b'9') (tens b'5' b'0' b'9')))))

abbrev pub hour_number : Regex
hour_number = alt (range b'0' b'9') (alt (tens b'1' b'0' b'9') (tens b'2' b'0' b'3'))

abbrev pub day_number : Regex
day_number =
    alt (range b'1' b'9')
      (alt (tens b'1' b'0' b'9') (alt (tens b'2' b'0' b'9') (tens b'3' b'0' b'1')))

abbrev pub month_number : Regex
month_number = alt (range b'1' b'9') (tens b'1' b'0' b'2')

abbrev pub weekday_number : Regex
weekday_number = range b'0' b'6'

-- `(\*|(number)|\*\/(number))`
abbrev pub cron_field : Regex → Regex
cron_field r = alt (literal b'*') (alt r (seq (literal b'*') (seq (literal b'/') r)))

abbrev pub spaced : Regex → Regex → Regex
spaced p q = seq p (seq (literal b' ') q)

abbrev pub cron_regex : Regex
cron_regex = spaced (cron_field minute_number) (
    spaced (cron_field hour_number) (
      spaced (cron_field day_number)
        (spaced (cron_field month_number) (cron_field weekday_number))))

unfoldable pub is_valid_cron_schedule : String → Bool
unfolding match
is_valid_cron_schedule schedule = match cron_regex (codes schedule) at_end
