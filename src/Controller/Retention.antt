-- ===== src/Controller/Retention.antt =====
-- filterRecordsToDelete and applyRetentionPolicy of internal/controller/backuptask_controller.go.
pub mod Choice
pub mod Ages
pub mod Spares
pub mod Removes
use mathlib.Core.Option
use backup_operator.Base.{
  ℕ, ℤ, pos, negsuc, ◌+ℤ◌, ◌-ℤ◌, ◌*ℤ◌, ltb_ℤ, leb, wrap32, wrap64, String, Bool, Option, none, some,
  List, [], ◌∷◌, ◌++◌, length, drop, filter, Outcome, ok, fail, panic, Error, wrapped, Action, pure,
  raise, lift, attempt, resume, ◌≡◌, ◌>>=◌, ◌>>◌, if◌then◌else◌,
}
use backup_operator.Kube.{Time, Duration}
use backup_operator.Api.{RetentionPolicy, BackupTask, BackupRecord}
use backup_operator.Client.{Client}
use backup_operator.Controller.Constants.{backup_task_label_key}

abbrev pub hour : Duration
hour = pos 3600000000000

-- `time.Duration(days) * 24 * time.Hour`, in `int64`.
unfoldable pub max_age_of : ℤ → Duration
max_age_of days = wrap64 (wrap64 (days *ℤ pos 24) *ℤ hour)

-- `record.CreationTimestamp.Add(maxAge).Before(now)`
abbrev pub is_too_old : Time → Duration → BackupRecord → Bool
is_too_old now max_age r = ltb_ℤ (r.meta.creation_timestamp +ℤ max_age) now

-- `xs[i:]`, which is in range from 0 to the length.
unfoldable pub slice_from {ℓ} : {A : Type ℓ} → List A → ℤ → Outcome (List A)
slice_from xs (pos n) =
    if leb n (length xs) then ok (drop n xs) else panic "slice bounds out of range"
slice_from xs (negsuc n) = panic "slice bounds out of range"

-- The records past the first `count`, if there are more.
unfoldable pub beyond_count : List BackupRecord → Option ℤ → Outcome (List BackupRecord)
unfolding slice_from
beyond_count rs none = ok []
beyond_count rs (some count) = if ltb_ℤ count (pos (length rs)) then slice_from rs count else ok []

unfoldable pub beyond_age : Time → List BackupRecord → Option ℤ → List BackupRecord
beyond_age now rs none = []
beyond_age now rs (some days) = filter (is_too_old now (max_age_of days)) rs

-- `append(toDelete, …)` after the count.
abbrev pub append_ok : Outcome (List BackupRecord) → List BackupRecord → Outcome (List BackupRecord)
append_ok (ok xs) ys = ok (xs ++ ys)
append_ok (fail e) ys = fail e
append_ok (panic m) ys = panic m

unfoldable pub filter_records_to_delete :
    Time → List BackupRecord → RetentionPolicy → Outcome (List BackupRecord)
unfolding beyond_count beyond_age
filter_records_to_delete now rs policy =
    append_ok (beyond_count rs policy.max_backup_count) (beyond_age now rs policy.max_age_days)

module _ (C : Client) where
  -- The loop of deletions: an error is logged, and the loop goes on.
  unfoldable pub delete_records : List BackupRecord → Action C.World (Unit {0})
  delete_records [] = pure tt
  delete_records (r ∷ rs) =
      let rest = delete_records rs in attempt (C.delete_record r) (λ _. rest) (λ _. rest)

  abbrev pub read_clock : Action C.World Time
  read_clock w = let (t, w') = C.now w in (ok t, w')

  abbrev pub wrap_error : {A : Type 0} → String → Action C.World A → Action C.World A
  wrap_error m a = attempt a pure (λ e. raise (wrapped m e))

  -- A call that succeeds has succeeded inside the wrapping of its error.
  wrap_error-resume :
      {A : Type 0} (m : String) (r : Outcome A × C.World) {x : A} {w' : C.World}
      → resume r pure (λ e. raise (wrapped m e)) ≡ (ok x, w')
      → r ≡ (ok x, w')
  wrap_error-resume m (ok a, w) h = h
  wrap_error-resume m (fail e, w) h = cc
  wrap_error-resume m (panic t, w) h = cc

  pub wrap_error-ok :
      {A : Type 0} (m : String) (a : Action C.World A) {w w' : C.World} {x : A}
      → wrap_error m a w ≡ (ok x, w')
      → a w ≡ (ok x, w')
  wrap_error-ok m a {w} h = wrap_error-resume m (a w) h

  -- Returns the task with its `Status.BackupHistoryCount`, in memory only.
  unfoldable pub apply_policy : BackupTask → RetentionPolicy → Action C.World BackupTask
  unfolding delete_records
  apply_policy task policy = do
    rs ←
        wrap_error "failed to list BackupRecords"
          (C.list_records task.meta.namespace ((backup_task_label_key, task.meta.name) ∷ []))
    t ← read_clock
    doomed ← lift (filter_records_to_delete t rs policy)
    delete_records doomed
    pure (record task {
      status = record (task.status) {
        backup_history_count = wrap32 (pos (length rs) -ℤ pos (length doomed));
      };
    })

  unfoldable pub apply_retention_policy : BackupTask → Action C.World BackupTask
  unfolding apply_policy
  apply_retention_policy task = elim task.spec.retention [
    | none ↦ pure task
    | some policy ↦ apply_policy task policy
  ]
