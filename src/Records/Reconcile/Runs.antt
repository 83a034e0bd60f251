-- ===== src/Records/Reconcile/Runs.antt =====
-- The ways a reconciliation of a record can end without an error.
use backup_operator.Base.{
  ◌≡◌, ◌≢◌, ◌⊎◌, ◌+ℤ◌, ℤ, Option, Option-cases, is_none, some, none, arith, sym, ap, inl, inr, pos,
  bound, caught, ok_value, ok_world, fail_not_ok, Bool, Bool-cases, true, false, ◌||◌, Outcome, ok,
  fail, Error, is_not_found, wrapped, pure, raise, attempt, ◌>>◌, if◌then◌else◌,
}
use backup_operator.Kube.{NamespacedName, Time}
use backup_operator.Api.{
  BackupPhase, completed, BackupTask, expired, BackupRecord, VerificationResult, pending_result,
  success_result,
}
use backup_operator.Controller.Retention.{max_age_of}
use backup_operator.Client.{Client}
use backup_operator.Controller.Reconcile.{CtrlResult, no_requeue, half_minute, five_minutes}
use backup_operator.Records.Jobs.{
  is_completed, is_failed, with_phase, with_error, check_backup_job_status,
}
use backup_operator.Records.Reconcile.{
  expire, max_age_days_of, is_pending, verify_backup, set_expiration, verify, finish_record,
  reconcile_backup_record, reconcile_record,
}

abbrev pub is_settled : BackupRecord → Bool
is_settled r = is_completed r.status.phase || is_failed r.status.phase

abbrev pub task_key : BackupRecord → NamespacedName
task_key r = record { name = r.spec.backup_task_ref.name; namespace = r.meta.namespace }

abbrev pub expired_record : BackupRecord → BackupRecord
expired_record r = with_error "Associated BackupTask no longer exists" (with_phase expired r)

module _ (C : Client) where
  -- A completed record of a task with a maximal age, which has no expiration yet, was sent with the
  -- one of its start and that age; any other record is left.
  pub data Dated (task : BackupTask) (y : BackupRecord) (u : C.World) (x : BackupRecord)
      (v : C.World) : Type 0 where
    dated :
        (days : ℤ)
        → max_age_days_of task.spec.retention ≡ some days
        → y.status.phase ≡ completed
        → y.status.expiration_time ≡ none
        → C.update_record_status
            (record y {
              status = record (y.status) {
                expiration_time = some (y.spec.start_time +ℤ max_age_of days);
              };
            })
            u
          ≡ (ok x, v)
        → Dated task y u x v
    no_limit : max_age_days_of task.spec.retention ≡ none → x ≡ y → v ≡ u → Dated task y u x v
    not_due :
        (y.status.phase ≢ completed) ⊎ (y.status.expiration_time ≢ none)
        → x ≡ y
        → v ≡ u
        → Dated task y u x v

  -- A completed record whose verification is pending was sent with a success at the time of the
  -- clock; any other record is left.
  pub data Verified (x : BackupRecord) (v : C.World) (w' : C.World) : Type 0 where
    verified :
        (z : BackupRecord)
        → x.status.phase ≡ completed
        → x.status.verification_status.result ≡ pending_result
        → C.update_record_status
            (record x {
              status = record (x.status) {
                verification_status = record {
                  verified_at = some (C.now v).0;
                  result = success_result;
                  message = "Backup verification successful";
                };
              };
            })
            (C.now v).1
          ≡ (ok z, w')
        → Verified x v w'
    not_pending :
        (x.status.phase ≢ completed) ⊎ (x.status.verification_status.result ≢ pending_result)
        → w' ≡ v
        → Verified x v w'

  -- The expiration is set and then the record is verified, as far as they are due.
  abbrev pub Finished : BackupTask → BackupRecord → C.World → C.World → Type 0
  Finished task y u w' = (x : BackupRecord) × (v : C.World) × Dated task y u x v × Verified x v w'

  -- From a record `x` that is not settled and the world `w`.
  pub data OpenRun (x : BackupRecord) (w : C.World) (r : CtrlResult) (w' : C.World) : Type 0 where
    orphaned :
        (e : Error) (v : C.World) (y : BackupRecord)
        → is_not_found e ≡ true
        → C.get_task (task_key x) w ≡ (fail e, v)
        → C.update_record_status (expired_record x) v ≡ (ok y, w')
        → r.requeue_after ≡ pos 0
        → OpenRun x w r w'
    unchecked :
        (task : BackupTask) (e : Error) (v : C.World)
        → C.get_task (task_key x) w ≡ (ok task, v)
        → check_backup_job_status C x v ≡ (fail e, w')
        → r.requeue_after ≡ half_minute
        → OpenRun x w r w'
    checked :
        (task : BackupTask) (y : BackupRecord) (v u : C.World)
        → C.get_task (task_key x) w ≡ (ok task, v)
        → check_backup_job_status C x v ≡ (ok y, u)
        → Finished task y u w'
        → r.requeue_after ≡ five_minutes
        → OpenRun x w r w'

  pub data RecordRun (request : NamespacedName) (w : C.World) (r : CtrlResult) (w' : C.World)
      : Type 0 where
    gone :
        (e : Error)
        → is_not_found e ≡ true
        → C.get_record request w ≡ (fail e, w')
        → r.requeue_after ≡ pos 0
        → RecordRun request w r w'
    settled :
        (x : BackupRecord)
        → is_settled x ≡ true
        → C.get_record request w ≡ (ok x, w')
        → r.requeue_after ≡ pos 0
        → RecordRun request w r w'
    unsettled :
        (x : BackupRecord) (v : C.World)
        → is_settled x ≡ false
        → C.get_record request w ≡ (ok x, v)
        → OpenRun x v r w'
        → RecordRun request w r w'

  same_requeue :
      {r r' : CtrlResult} {w w' : C.World}
      → Path (Outcome CtrlResult × C.World) (ok r, w) (ok r', w')
      → r'.requeue_after ≡ r.requeue_after
  same_requeue h = sym (ap (λ q. q.requeue_after) (ok_value h))

  expire_of :
      (x : BackupRecord) (r : CtrlResult) (v w' : C.World)
      → expire C x v ≡ (ok r, w')
      → ((y : BackupRecord) × (C.update_record_status (expired_record x) v ≡ (ok y, w')))
        × (r.requeue_after ≡ pos 0)
  unfolding expire
  expire_of x r v w' h =
      let b = bound (C.update_record_status (expired_record x)) (λ _. pure no_requeue) h in
      ((b.value, cc (b.first, b.second)), same_requeue b.second)

  completed_only : (p : BackupPhase) → is_completed p ≡ true → p ≡ completed
  completed_only p h = ground arith

  not_completed : (p : BackupPhase) → is_completed p ≡ false → p ≢ completed
  not_completed p h e = ground arith

  pending_only : (r : VerificationResult) → is_pending r ≡ true → r ≡ pending_result
  pending_only r h = ground arith

  not_pending_only : (r : VerificationResult) → is_pending r ≡ false → r ≢ pending_result
  not_pending_only r h e = ground arith

  absent : (t : Option Time) → is_none t ≡ true → t ≡ none
  absent t h = ground arith

  given : (t : Option Time) → is_none t ≡ false → t ≢ none
  given t h e = ground arith

  left :
      {x y : BackupRecord} {u v : C.World}
      → Path (Outcome BackupRecord × C.World) (ok y, u) (ok x, v)
      → (x ≡ y) × (v ≡ u)
  left h = (sym (ok_value h), sym (ok_world h))

  set_expiration-Dated :
      (task : BackupTask) (y x : BackupRecord) (u v : C.World)
      → set_expiration C task y u ≡ (ok x, v)
      → Dated task y u x v
  unfolding set_expiration
  set_expiration-Dated task y x u v h = elim (Option-cases (max_age_days_of task.spec.retention)) [
    | inl none_set ↦ let (a, b) = left (rw none_set at h) in no_limit none_set a b
    | inr (days, set) ↦ elim (Bool-cases (is_completed y.status.phase)) [
      | inl done ↦ elim (Bool-cases (is_none y.status.expiration_time)) [
        | inl new ↦
            dated days set (completed_only _ done) (absent y.status.expiration_time new)
              (rw (set, done, new) at h)
        | inr old ↦
            let (a, b) = left (rw (set, done, old) at h) in
            not_due (inr (given y.status.expiration_time old)) a b
      ]
      | inr still ↦
          let (a, b) = left (rw (set, still) at h) in
          not_due (inl (not_completed y.status.phase still)) a b
    ]
  ]

  verify-Verified :
      (x z : BackupRecord) (v w' : C.World) → verify C x v ≡ (ok z, w') → Verified x v w'
  unfolding verify verify_backup
  verify-Verified x z v w' h = elim (Bool-cases (is_completed x.status.phase)) [
    | inl done ↦ elim (Bool-cases (is_pending x.status.verification_status.result)) [
      | inl todo ↦ verified z (completed_only _ done) (pending_only _ todo) (rw (done, todo) at h)
      | inr checked_already ↦
          let (a, b) = left (rw (done, checked_already) at h) in
          not_pending (inr (not_pending_only x.status.verification_status.result checked_already)) b
    ]
    | inr still ↦
        let (a, b) = left (rw still at h) in
        not_pending (inl (not_completed x.status.phase still)) b
  ]

  finish_of :
      (task : BackupTask) (y : BackupRecord) (r : CtrlResult) (u w' : C.World)
      → finish_record C task y u ≡ (ok r, w')
      → Finished task y u w' × (r.requeue_after ≡ five_minutes)
  unfolding finish_record
  finish_of task y r u w' h =
      let later : CtrlResult = record { requeue_after = five_minutes } in
      let b = bound (set_expiration C task y) (λ r'. verify C r' >> pure later) h in
      let c = bound (verify C b.value) (λ _. pure later) b.second in
      (
        (
          b.value,
          b.middle,
          set_expiration-Dated task y b.value u b.middle b.first,
          verify-Verified b.value c.value b.middle w' (cc (c.first, ok_world c.second)),
        ),
        same_requeue c.second,
      )

  open_run :
      (x : BackupRecord) (r : CtrlResult) (w w' : C.World)
      → reconcile_backup_record C x w ≡ (ok r, w')
      → OpenRun x w r w'
  unfolding reconcile_backup_record
  open_run x r w w' h =
      let later : CtrlResult = record { requeue_after = half_minute } in
      let missing = λ (e : Error).
        if is_not_found e then expire C x else raise (wrapped "failed to get BackupTask" e) in
      let found = λ (task : BackupTask).
        attempt (check_backup_job_status C x) (finish_record C task) (λ _. pure later) in
      elim (caught (C.get_task (task_key x)) found missing h) [
        | inl b ↦
            elim (caught (check_backup_job_status C x) (finish_record C b.value) (λ _. pure later)
              b.second) [
                | inl c ↦
                    let (done, requeue) = finish_of b.value c.value r c.middle w' c.second in
                    checked b.value c.value b.middle c.middle b.first c.first done requeue
                | inr c ↦
                    unchecked b.value c.error b.middle b.first (cc (c.first, ok_world c.second))
                      (same_requeue c.second)
              ]
        | inr c ↦ elim (Bool-cases (is_not_found c.error)) [
          | inl lost ↦
              let ((y, sent), requeue) = expire_of x r c.middle w' (rw lost at c.second) in
              orphaned c.error c.middle y lost c.first sent requeue
          | inr other ↦ absurd (fail_not_ok (rw other at c.second))
        ]
      ]

  settled_run :
      (request : NamespacedName) (r : CtrlResult) (w w' : C.World) (x : BackupRecord) (v : C.World)
      → is_settled x ≡ true
      → C.get_record request w ≡ (ok x, v)
      → Path (Outcome CtrlResult × C.World) (ok no_requeue, v) (ok r, w')
      → RecordRun request w r w'
  settled_run request r w w' x v s g h = settled x s (cc (g, ok_world h)) (same_requeue h)

  gone_run :
      (request : NamespacedName) (r : CtrlResult) (w w' : C.World) (e : Error) (v : C.World)
      → is_not_found e ≡ true
      → C.get_record request w ≡ (fail e, v)
      → Path (Outcome CtrlResult × C.World) (ok no_requeue, v) (ok r, w')
      → RecordRun request w r w'
  gone_run request r w w' e v s g h = gone e s (cc (g, ok_world h)) (same_requeue h)

  -- A reconciliation of a record that ends without an error took one of these ways: the record is
  -- gone; it is settled (completed or failed), and nothing else was done; its task is gone, and it was
  -- marked as expired, with no further run; its jobs could not be checked, and the next run is after
  -- half a minute; or they were checked, and the next run is after five minutes. In the last way the
  -- record was then sent with its expiration, if it is completed, has none and the task has a maximal
  -- age, and after that with a successful verification, if it is completed and its verification is
  -- pending; otherwise it was left.
  pub reconcile_record_runs :
      (request : NamespacedName) (r : CtrlResult) (w w' : C.World)
      → reconcile_record C request w ≡ (ok r, w')
      → RecordRun request w r w'
  unfolding reconcile_record
  reconcile_record_runs request r w w' h =
      let missing = λ (e : Error). if is_not_found e then pure no_requeue else raise e in
      let found = λ (x : BackupRecord).
        if is_settled x then pure no_requeue else reconcile_backup_record C x in
      elim (caught (C.get_record request) found missing h) [
        | inl b ↦ elim (Bool-cases (is_settled b.value)) [
          | inl done ↦
              settled_run request r w w' b.value b.middle done b.first (rw done at b.second)
          | inr todo ↦
              unsettled b.value b.middle todo b.first
                (open_run b.value r b.middle w' (rw todo at b.second))
        ]
        | inr c ↦ elim (Bool-cases (is_not_found c.error)) [
          | inl lost ↦ gone_run request r w w' c.error c.middle lost c.first (rw lost at c.second)
          | inr other ↦ absurd (fail_not_ok (rw other at c.second))
        ]
      ]
