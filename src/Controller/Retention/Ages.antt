-- ===== src/Controller/Retention/Ages.antt =====
-- The maximal age in nanoseconds, and where its `int64` overflows.
use backup_operator.Base.{
  inr, Place, Place-twice, get_elem?, ok, ℕ, ◌*◌, ◌^◌, ◌≤◌, ◌<◌, ◌≡◌, refl, ◌∙◌, ap, ℤ, pos, ◌+ℤ◌,
  ◌*ℤ◌, ◌≤ℤ◌, ◌<ℤ◌, wrap64, wrap64_exact, wrap64_overflow, some, List, arith,
}
use backup_operator.Kube.{Time}
use backup_operator.Api.{RetentionPolicy, BackupRecord}
use backup_operator.Controller.Retention.Choice.{
  HasCount, IsBeyondCount, IsBeyondAge, tail_of, Place-tail_of, Place-beyond_age, filter_records_ok,
  filter_records_choice,
}
use backup_operator.Controller.Retention.{max_age_of, beyond_age, filter_records_to_delete}

pos-*ℤ-pos : (a b : ℕ) → pos a *ℤ pos b ≡ pos (a * b)
pos-*ℤ-pos a b = ground arith

max_age_wraps : (d : ℕ) → d < 2 ^ 31 → max_age_of (pos d) ≡ wrap64 (pos (d * 24 * 3600000000000))
unfolding max_age_of
max_age_wraps d h =
    rw (pos-*ℤ-pos d 24, wrap64_exact (d * 24) (omega arith), pos-*ℤ-pos (d * 24) 3600000000000)
      refl

-- Up to 106751 days the age is exactly that number of days, in nanoseconds.
pub max_age_exact : (d : ℕ) → d ≤ 106751 → max_age_of (pos d) ≡ pos (d * 86400000000000)
max_age_exact d h =
    max_age_wraps d (omega arith) ∙ wrap64_exact _ (omega arith) ∙ ap pos (omega arith)

-- From 106752 to 213503 days the multiplication overflows, and the age is negative.
pub max_age_overflow : (d : ℕ) → 106752 ≤ d → d ≤ 213503 → max_age_of (pos d) <ℤ pos 0
max_age_overflow d l h =
    rw
      (
        max_age_wraps d (omega arith),
        wrap64_overflow (d * 24 * 3600000000000) (omega arith) (omega arith),
      )
      (omega arith)

negative_age : (now t a : ℤ) → t ≤ℤ now → a <ℤ pos 0 → t +ℤ a <ℤ now
negative_age now t a p q = ground arith

-- A maximal age of 106752 to 213503 days, with a maximal count that is absent or not negative, dooms
-- every record of the list that was not created in the future.
pub overflowed_age-dooms_all :
    (now : Time) (d : ℕ) (rs : List BackupRecord) (policy : RetentionPolicy)
    → 106752 ≤ d
    → d ≤ 213503
    → policy.max_age_days ≡ some (pos d)
    → HasCount policy.max_backup_count
    → (doomed : List BackupRecord) × (filter_records_to_delete now rs policy ≡ ok doomed)
      × ((r : BackupRecord) → Place r rs → r.meta.creation_timestamp ≤ℤ now → Place r doomed)
overflowed_age-dooms_all now d rs policy l h days count =
    let (doomed, chosen, exactly) = filter_records_choice now rs policy count in
    (
      doomed,
      chosen,
      λ r p created. (exactly r).1 (
        p.0,
        p.1,
        inr (
            rw days (
              negative_age now r.meta.creation_timestamp (max_age_of (pos d)) created
                (max_age_overflow d l h))),
      ),
    )

-- With a maximal count that is absent or not negative, a record that is past the count and also too
-- old stands at two places of the choice.
pub doomed_twice :
    (now : Time) (rs : List BackupRecord) (policy : RetentionPolicy) (i : ℕ) (r : BackupRecord)
    → HasCount policy.max_backup_count
    → get_elem? rs i ≡ some r
    → IsBeyondCount policy.max_backup_count i
    → IsBeyondAge now policy.max_age_days r
    → (doomed : List BackupRecord) × (filter_records_to_delete now rs policy ≡ ok doomed)
      × (j : ℕ) × (k : ℕ) × (j < k)
      × (get_elem? doomed j ≡ some r)
      × (get_elem? doomed k ≡ some r)
doomed_twice now rs policy i r count place past old =
    let (j, k, before, first, second) =
      Place-twice (tail_of rs policy.max_backup_count) (beyond_age now rs policy.max_age_days)
        ((Place-tail_of rs policy.max_backup_count r count).1 (i, place, past))
        ((Place-beyond_age now rs policy.max_age_days r).1 ((i, place), old)) in
    (_, filter_records_ok now rs policy count, j, k, before, first, second)
