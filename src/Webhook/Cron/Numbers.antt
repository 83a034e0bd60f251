-- ===== src/Webhook/Cron/Numbers.antt =====
-- The number of each field: the alternatives of the expression are exactly a range of numerals.
use backup_operator.Base.{
  ℕ, ◌+◌, ◌-◌, ◌*◌, ◌/◌, ◌%◌, ◌≤◌, ◌≡◌, refl, ◌∙◌, inl, inr, List, [], ◌∷◌, arith, ltb,
  if◌then◌else◌, dec_lt,
}
use backup_operator.Webhook.Cron.{
  Regex, tens, minute_number, hour_number, day_number, month_number, weekday_number,
}
use backup_operator.Webhook.Cron.Language.{Language}

-- The decimal digits of a number below 100, with no leading zero.
abbrev pub numeral : ℕ → List ℕ
numeral n = if ltb n 10 then (b'0' + n) ∷ [] else (b'0' + n / 10) ∷ (b'0' + n % 10) ∷ []

abbrev pub IsNumber : ℕ → ℕ → List ℕ → Type 0
IsNumber lo hi s = (n : ℕ) × (lo ≤ n) × (n ≤ hi) × (s ≡ numeral n)

-- An expression denotes exactly a set of texts.
pub record Denotes (r : Regex) (P : List ℕ → Type 0) : Type 0 where
  pub sound : (s : List ℕ) → Language r s → P s
  pub complete : (s : List ℕ) → P s → Language r s

ones-IsNumber :
    (a b lo hi : ℕ) (s : List ℕ)
    → (lo ≤ a) × (b ≤ hi) × (b ≤ 9)
    → Language (Regex.range (b'0' + a) (b'0' + b)) s
    → IsNumber lo hi s
ones-IsNumber a b lo hi s bounds (c, l, h, e) =
    (c - b'0', omega arith, omega arith, e ∙ ground arith)

tens-IsNumber :
    (d a b lo hi : ℕ) (s : List ℕ)
    → (1 ≤ d) × (lo ≤ d * 10 + a) × (d * 10 + b ≤ hi) × (b ≤ 9)
    → Language (tens (b'0' + d) (b'0' + a) (b'0' + b)) s
    → IsNumber lo hi s
tens-IsNumber d a b lo hi s bounds (u, v, eu, (c, l, h, ev), e) =
    (d * 10 + (c - b'0'), omega arith, omega arith, e ∙ rw (eu, ev) (ground arith))

ones-Language :
    (a b n : ℕ) (s : List ℕ)
    → (a ≤ n) × (n ≤ b) × (b ≤ 9)
    → s ≡ numeral n
    → Language (Regex.range (b'0' + a) (b'0' + b)) s
ones-Language a b n s bounds e = (b'0' + n, omega arith, omega arith, e ∙ ground arith)

tens-Language :
    (d a b n : ℕ) (s : List ℕ)
    → (1 ≤ d) × (d * 10 + a ≤ n) × (n ≤ d * 10 + b) × (b ≤ 9)
    → s ≡ numeral n
    → Language (tens (b'0' + d) (b'0' + a) (b'0' + b)) s
tens-Language d a b n s bounds e = (
  (b'0' + d) ∷ [],
  (b'0' + n % 10) ∷ [],
  refl,
  (b'0' + n % 10, omega arith, omega arith, refl),
  e ∙ ground arith,
)

pub minute_denotes : Denotes minute_number (IsNumber 0 59)
minute_denotes = record { sound = to; complete = from }
  where
    to : (s : List ℕ) → Language minute_number s → IsNumber 0 59 s
    to s (inl l) = ones-IsNumber 0 9 0 59 s (omega arith) l
    to s (inr (inl l)) = tens-IsNumber 1 0 9 0 59 s (omega arith) l
    to s (inr (inr (inl l))) = tens-IsNumber 2 0 9 0 59 s (omega arith) l
    to s (inr (inr (inr (inl l)))) = tens-IsNumber 3 0 9 0 59 s (omega arith) l
    to s (inr (inr (inr (inr (inl l))))) = tens-IsNumber 4 0 9 0 59 s (omega arith) l
    to s (inr (inr (inr (inr (inr l))))) = tens-IsNumber 5 0 9 0 59 s (omega arith) l

    from : (s : List ℕ) → IsNumber 0 59 s → Language minute_number s
    from s (n, p, q, e) = elim (dec_lt n 10) [
      | yes h ↦ inl (ones-Language 0 9 n s (omega arith) e)
      | no h ↦ inr (elim (dec_lt n 20) [
        | yes i ↦ inl (tens-Language 1 0 9 n s (omega arith) e)
        | no i ↦ inr (elim (dec_lt n 30) [
          | yes j ↦ inl (tens-Language 2 0 9 n s (omega arith) e)
          | no j ↦ inr (elim (dec_lt n 40) [
            | yes k ↦ inl (tens-Language 3 0 9 n s (omega arith) e)
            | no k ↦ inr (elim (dec_lt n 50) [
              | yes l ↦ inl (tens-Language 4 0 9 n s (omega arith) e)
              | no l ↦ inr (tens-Language 5 0 9 n s (omega arith) e)
            ])
          ])
        ])
      ])
    ]

pub hour_denotes : Denotes hour_number (IsNumber 0 23)
hour_denotes = record { sound = to; complete = from }
  where
    to : (s : List ℕ) → Language hour_number s → IsNumber 0 23 s
    to s (inl l) = ones-IsNumber 0 9 0 23 s (omega arith) l
    to s (inr (inl l)) = tens-IsNumber 1 0 9 0 23 s (omega arith) l
    to s (inr (inr l)) = tens-IsNumber 2 0 3 0 23 s (omega arith) l

    from : (s : List ℕ) → IsNumber 0 23 s → Language hour_number s
    from s (n, p, q, e) = elim (dec_lt n 10) [
      | yes h ↦ inl (ones-Language 0 9 n s (omega arith) e)
      | no h ↦ inr (elim (dec_lt n 20) [
        | yes i ↦ inl (tens-Language 1 0 9 n s (omega arith) e)
        | no i ↦ inr (tens-Language 2 0 3 n s (omega arith) e)
      ])
    ]

pub day_denotes : Denotes day_number (IsNumber 1 31)
day_denotes = record { sound = to; complete = from }
  where
    to : (s : List ℕ) → Language day_number s → IsNumber 1 31 s
    to s (inl l) = ones-IsNumber 1 9 1 31 s (omega arith) l
    to s (inr (inl l)) = tens-IsNumber 1 0 9 1 31 s (omega arith) l
    to s (inr (inr (inl l))) = tens-IsNumber 2 0 9 1 31 s (omega arith) l
    to s (inr (inr (inr l))) = tens-IsNumber 3 0 1 1 31 s (omega arith) l

    from : (s : List ℕ) → IsNumber 1 31 s → Language day_number s
    from s (n, p, q, e) = elim (dec_lt n 10) [
      | yes h ↦ inl (ones-Language 1 9 n s (omega arith) e)
      | no h ↦ inr (elim (dec_lt n 20) [
        | yes i ↦ inl (tens-Language 1 0 9 n s (omega arith) e)
        | no i ↦ inr (elim (dec_lt n 30) [
          | yes j ↦ inl (tens-Language 2 0 9 n s (omega arith) e)
          | no j ↦ inr (tens-Language 3 0 1 n s (omega arith) e)
        ])
      ])
    ]

pub month_denotes : Denotes month_number (IsNumber 1 12)
month_denotes = record { sound = to; complete = from }
  where
    to : (s : List ℕ) → Language month_number s → IsNumber 1 12 s
    to s (inl l) = ones-IsNumber 1 9 1 12 s (omega arith) l
    to s (inr l) = tens-IsNumber 1 0 2 1 12 s (omega arith) l

    from : (s : List ℕ) → IsNumber 1 12 s → Language month_number s
    from s (n, p, q, e) = elim (dec_lt n 10) [
      | yes h ↦ inl (ones-Language 1 9 n s (omega arith) e)
      | no h ↦ inr (tens-Language 1 0 2 n s (omega arith) e)
    ]

pub weekday_denotes : Denotes weekday_number (IsNumber 0 6)
weekday_denotes = record { sound = to; complete = from }
  where
    to : (s : List ℕ) → Language weekday_number s → IsNumber 0 6 s
    to s l = ones-IsNumber 0 6 0 6 s (omega arith) l

    from : (s : List ℕ) → IsNumber 0 6 s → Language weekday_number s
    from s (n, p, q, e) = ones-Language 0 6 n s (omega arith) e
