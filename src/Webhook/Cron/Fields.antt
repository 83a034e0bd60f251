-- ===== src/Webhook/Cron/Fields.antt =====
-- The accepted schedules, in words: five fields, each `*`, a number in its range, or `*/` and such
-- a number.
use backup_operator.Base.{
  ℕ, ◌≡◌, refl, ◌∙◌, ◌↔◌, ◌⊎◌, inl, inr, true, String, List, [], ◌∷◌, ◌++◌, codes,
}
use backup_operator.Webhook.Cron.{Regex, cron_field, spaced, cron_regex, is_valid_cron_schedule}
use backup_operator.Webhook.Cron.Language.{Language, match_iff}
use backup_operator.Webhook.Cron.Numbers.{
  IsNumber, Denotes, minute_denotes, hour_denotes, day_denotes, month_denotes, weekday_denotes,
}

abbrev pub IsField : ℕ → ℕ → List ℕ → Type 0
IsField lo hi s =
    (s ≡ b'*' ∷ []) ⊎ (IsNumber lo hi s ⊎ ((t : List ℕ) × IsNumber lo hi t × (s ≡ b'*' ∷ b'/' ∷ t)))

abbrev pub Spaced : (List ℕ → Type 0) → (List ℕ → Type 0) → List ℕ → Type 0
Spaced P Q s = (u : List ℕ) × (v : List ℕ) × P u × Q v × (s ≡ u ++ b' ' ∷ v)

abbrev pub IsCronSchedule : List ℕ → Type 0
IsCronSchedule =
    Spaced (IsField 0 59)
      (Spaced (IsField 0 23) (Spaced (IsField 1 31) (Spaced (IsField 1 12) (IsField 0 6))))

cron_field_denotes :
    {r : Regex} (lo hi : ℕ) → Denotes r (IsNumber lo hi) → Denotes (cron_field r) (IsField lo hi)
cron_field_denotes {r} lo hi d = record { sound = to; complete = from }
  where
    to : (s : List ℕ) → Language (cron_field r) s → IsField lo hi s
    to s (inl l) = inl l
    to s (inr (inl l)) = inr (inl (d.sound s l))
    to s (inr (inr (u, v, eu, (x, t, ex, l, ev), e))) =
        inr (inr (t, d.sound t l, e ∙ rw (eu, ev, ex)))

    from : (s : List ℕ) → IsField lo hi s → Language (cron_field r) s
    from s (inl e) = inl e
    from s (inr (inl n)) = inr (inl (d.complete s n))
    from s (inr (inr (t, n, e))) =
        inr (inr (b'*' ∷ [], b'/' ∷ t, refl, (b'/' ∷ [], t, refl, d.complete t n, refl), e))

spaced_denotes :
    {p q : Regex} {P Q : List ℕ → Type 0}
    → Denotes p P
    → Denotes q Q
    → Denotes (spaced p q) (Spaced P Q)
spaced_denotes {p} {q} {P} {Q} dp dq = record { sound = to; complete = from }
  where
    to : (s : List ℕ) → Language (spaced p q) s → Spaced P Q s
    to s (u, v, l, (x, t, ex, m, ev), e) = (u, t, dp.sound u l, dq.sound t m, e ∙ rw (ev, ex))

    from : (s : List ℕ) → Spaced P Q s → Language (spaced p q) s
    from s (u, v, l, m, e) =
        (u, b' ' ∷ v, dp.complete u l, (b' ' ∷ [], v, refl, dq.complete v m, refl), e)

cron_denotes : Denotes cron_regex IsCronSchedule
cron_denotes = spaced_denotes (cron_field_denotes 0 59 minute_denotes) (
    spaced_denotes (cron_field_denotes 0 23 hour_denotes) (
      spaced_denotes (cron_field_denotes 1 31 day_denotes) (
        spaced_denotes (cron_field_denotes 1 12 month_denotes)
          (cron_field_denotes 0 6 weekday_denotes))))

-- A schedule is accepted exactly when it is five fields with single spaces between them, each `*`,
-- a number without leading zeros in the range of its field (0-59, 0-23, 1-31, 1-12, 0-6), or `*/`
-- and such a number.
pub is_valid_cron_schedule_iff :
    (schedule : String) → (is_valid_cron_schedule schedule ≡ true) ↔ IsCronSchedule (codes schedule)
unfolding is_valid_cron_schedule
is_valid_cron_schedule_iff schedule =
    let (sound, complete) = match_iff cron_regex (codes schedule) in
    (λ h. cron_denotes.sound _ (sound h), λ c. complete (cron_denotes.complete _ c))
