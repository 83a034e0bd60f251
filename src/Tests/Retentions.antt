-- ===== src/Tests/Retentions.antt =====
-- The retention's theorems at sample records.
use backup_operator.Base.{
  ◌≤ℤ◌, ◌<ℤ◌, ◌+ℤ◌, ◌<◌, ◌≡◌, ◌↔◌, refl, ℕ, ◌*◌, pos, none, some, List, [], ◌∷◌, get_elem?, Place,
  ok, arith,
}
use backup_operator.Api.{RetentionPolicy, BackupRecord}
use backup_operator.Controller.Retention.{max_age_of, filter_records_to_delete}
use backup_operator.Controller.Retention.Choice.{
  IsDoomed, HasCount, filter_records_choice, filter_records_ok_iff,
}
use backup_operator.Controller.Retention.Ages.{
  max_age_exact, overflowed_age-dooms_all, doomed_twice,
}
use backup_operator.Tests.Samples.{keep_two, record_at}

abbrev three : List BackupRecord
three = record_at "a" (pos 10) ∷ record_at "b" (pos 20) ∷ record_at "c" (pos 30) ∷ []

filter_records_choice_example :
    (doomed : List BackupRecord) × (filter_records_to_delete (pos 1000) three keep_two ≡ ok doomed)
    × ((r : BackupRecord)
        → Place r doomed
          ↔ ((i : ℕ) × (get_elem? three i ≡ some r) × IsDoomed (pos 1000) keep_two i r))
filter_records_choice_example = filter_records_choice (pos 1000) three keep_two tt

filter_records_ok_iff_example :
    ((doomed : List BackupRecord) × (filter_records_to_delete (pos 1000) three keep_two
        ≡ ok doomed))
    ↔ HasCount keep_two.max_backup_count
filter_records_ok_iff_example = filter_records_ok_iff (pos 1000) three keep_two

max_age_exact_example : max_age_of (pos 30) ≡ pos (30 * 86400000000000)
max_age_exact_example = max_age_exact 30 (omega arith)

abbrev by_age : ℕ → RetentionPolicy
by_age d = record { max_age_days = some (pos d); max_backup_count = some (pos 1); keep_last = none }

overflowed_age-dooms_all_example :
    (doomed : List BackupRecord) × (filter_records_to_delete (pos 1000) three (by_age 200000)
      ≡ ok doomed)
    × ((r : BackupRecord) → Place r three → r.meta.creation_timestamp ≤ℤ pos 1000 → Place r doomed)
overflowed_age-dooms_all_example =
    overflowed_age-dooms_all (pos 1000) 200000 three (by_age 200000) (omega arith) (omega arith)
      refl tt

old : pos 20 +ℤ max_age_of (pos 1) <ℤ pos 90000000000000
old = rw (max_age_exact 1 (omega arith)) (omega arith)

doomed_twice_example :
    (doomed : List BackupRecord) × (filter_records_to_delete (pos 90000000000000) three (by_age 1)
      ≡ ok doomed)
    × (j : ℕ) × (k : ℕ) × (j < k)
    × (get_elem? doomed j ≡ some (record_at "b" (pos 20)))
    × (get_elem? doomed k ≡ some (record_at "b" (pos 20)))
doomed_twice_example =
    doomed_twice (pos 90000000000000) three (by_age 1) 1 (record_at "b" (pos 20)) tt refl
      (omega arith) old
