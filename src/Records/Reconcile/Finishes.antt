-- ===== src/Records/Reconcile/Finishes.antt =====
-- What a completed record gets in the run that completes it.
use mathlib.Core.Bool.{false≢true}
use backup_operator.Base.{
  ◌≡◌, refl, sym, ap, ◌∙◌, inl, inr, ℤ, ◌+ℤ◌, bound, ok_value, ok_world, Bool-cases, true, false,
  Option, none, some, is_none, Outcome, ok, pure, ◌>>◌, arith,
}
use backup_operator.Kube.{Time, key_of}
use backup_operator.Api.{
  BackupTask, BackupRecord, VerificationResult, pending_result, success_result, failed_result,
  unset_result, skipped_result, other_result,
}
use backup_operator.Client.{Client}
use backup_operator.Controller.Retention.{max_age_of, read_clock}
use backup_operator.Controller.Reconcile.{CtrlResult, five_minutes}
use backup_operator.Records.Jobs.{is_completed}
use backup_operator.Records.Reconcile.{
  max_age_days_of, with_expiration, with_verification, verdict, verify_backup, is_pending,
  expire_after, set_expiration, verify, finish_record,
}
use backup_operator.Records.Store.{RecordStore}

-- When a completed record expires: the time that it has, or its start and the age that the task allows.
abbrev pub due : Option ℤ → Time → Option Time → Option Time
due none start t = t
due (some days) start none = some (start +ℤ max_age_of days)
due (some days) start (some t) = some t

due_set :
    (days : ℤ) (start : Time) (t : Option Time) → is_none t ≡ false → due (some days) start t ≡ t
due_set days start none h = absurd (false≢true (sym h))
due_set days start (some t) h = refl

due_new :
    (days : ℤ) (start : Time) (t : Option Time)
    → is_none t ≡ true
    → due (some days) start t ≡ some (start +ℤ max_age_of days)
due_new days start none h = refl
due_new days start (some t) h = absurd (false≢true h)

-- What the result of a verification becomes.
abbrev pub settle : VerificationResult → VerificationResult
settle pending_result = success_result
settle r = r

settle_pending : (r : VerificationResult) → is_pending r ≡ true → success_result ≡ settle r
settle_pending r h = ground arith

settle_other : (r : VerificationResult) → is_pending r ≡ false → r ≡ settle r
settle_other pending_result h = absurd (false≢true (sym h))
settle_other unset_result h = refl
settle_other success_result h = refl
settle_other failed_result h = refl
settle_other skipped_result h = refl
settle_other (other_result t) h = refl

-- The server answers a status update with the status that was sent.
abbrev pub AnswersStatus : Client → Type 0
AnswersStatus C =
    (r r' : BackupRecord) (w w' : C.World)
    → C.update_record_status r w ≡ (ok r', w')
    → r'.status ≡ r.status

module _ {C : Client} (S : RecordStore C) (answers : AnswersStatus C) where
  -- From `y`, which the world `u` holds, to `x`, which the world `v` holds under the same name.
  record Moves (y x : BackupRecord) (v : C.World) : Type 0 where
    held : S.stored v (key_of x.meta) ≡ some x
    named : key_of x.meta ≡ key_of y.meta
    phase : x.status.phase ≡ y.status.phase

  update-Moves :
      (y sent x : BackupRecord) (u v : C.World)
      → C.update_record_status sent u ≡ (ok x, v)
      → key_of sent.meta ≡ key_of y.meta
      → sent.status.phase ≡ y.status.phase
      → Moves y x v
  update-Moves y sent x u v e same phase =
      let (stored, key, p) = S.update_stores sent x u v e in
      record { held = ap (S.stored v) key ∙ stored; named = key ∙ same; phase = p ∙ phase }

  stays :
      (y x : BackupRecord) (u v : C.World)
      → Path (Outcome BackupRecord × C.World) (ok y, u) (ok x, v)
      → S.stored u (key_of y.meta) ≡ some y
      → Moves y x v
  stays y x u v h held = record { held = cc; named = cc; phase = cc }

  expire_after_lem :
      (days : Option ℤ) (y x : BackupRecord) (u v : C.World)
      → is_completed y.status.phase ≡ true
      → S.stored u (key_of y.meta) ≡ some y
      → expire_after C days y u ≡ (ok x, v)
      → Moves y x v
        × (x.status.expiration_time ≡ due days y.spec.start_time y.status.expiration_time)
        × (x.status.verification_status.result ≡ y.status.verification_status.result)
  expire_after_lem none y x u v done held h = (
    stays y x u v h held,
    ap (λ q. q.status.expiration_time) (sym (ok_value h)),
    ap (λ q. q.status.verification_status.result) (sym (ok_value h)),
  )
  expire_after_lem (some days) y x u v done held h =
      elim (Bool-cases (is_none y.status.expiration_time)) [
        | inl new ↦
            let sent = with_expiration (y.spec.start_time +ℤ max_age_of days) y in
            let e : C.update_record_status sent u ≡ (ok x, v) = rw (done, new) at h in
            (
              update-Moves y sent x u v e refl refl,
              ap (λ q. q.expiration_time) (answers sent x u v e)
                  ∙ sym (due_new days y.spec.start_time y.status.expiration_time new),
              ap (λ q. q.verification_status.result) (answers sent x u v e),
            )
        | inr old ↦
            let e : Path (Outcome BackupRecord × C.World) (ok y, u) (ok x, v) =
              rw (done, old) at h in
            (
              stays y x u v e held,
              ap (λ q. q.status.expiration_time) (sym (ok_value e))
                  ∙ sym (due_set days y.spec.start_time y.status.expiration_time old),
              ap (λ q. q.status.verification_status.result) (sym (ok_value e)),
            )
      ]

  verify_lem :
      (x z : BackupRecord) (v w' : C.World)
      → is_completed x.status.phase ≡ true
      → S.stored v (key_of x.meta) ≡ some x
      → verify C x v ≡ (ok z, w')
      → Moves x z w'
        × (z.status.expiration_time ≡ x.status.expiration_time)
        × (z.status.verification_status.result ≡ settle x.status.verification_status.result)
  unfolding verify verify_backup
  verify_lem x z v w' done held h =
      elim (Bool-cases (is_pending x.status.verification_status.result)) [
        | inl todo ↦
            let b =
              bound (read_clock C)
                (λ t. C.update_record_status (with_verification (verdict t (verify_backup x)) x))
                (rw (done, todo) at h) in
            let sent = with_verification (verdict b.value none) x in
            let same = answers sent z b.middle w' b.second in
            (
              update-Moves x sent z b.middle w' b.second refl refl,
              ap (λ q. q.expiration_time) same,
              ap (λ q. q.verification_status.result) same
                  ∙ settle_pending x.status.verification_status.result todo,
            )
        | inr verified ↦
            let e : Path (Outcome BackupRecord × C.World) (ok x, v) (ok z, w') =
              rw (done, verified) at h in
            (
              stays x z v w' e held,
              ap (λ q. q.status.expiration_time) (sym (ok_value e)),
              ap (λ q. q.status.verification_status.result) (sym (ok_value e))
                  ∙ settle_other x.status.verification_status.result verified,
            )
      ]

  -- If the server answers a status update with the status that was sent, and holds a completed record
  -- after the check of its jobs, then the rest of the run, if it ends without an error, leaves it
  -- completed. The result of its verification is a success if it was pending, and stays otherwise; it
  -- expires at the time that it had, or else at its start and the age that the task allows, if any.
  pub finish_record-completes :
      (task : BackupTask) (y : BackupRecord) (r : CtrlResult) (u w' : C.World)
      → is_completed y.status.phase ≡ true
      → S.stored u (key_of y.meta) ≡ some y
      → finish_record C task y u ≡ (ok r, w')
      → (z : BackupRecord) × (S.stored w' (key_of y.meta) ≡ some z)
        × (is_completed z.status.phase ≡ true)
        × (z.status.verification_status.result ≡ settle y.status.verification_status.result)
        × (z.status.expiration_time
            ≡ due (max_age_days_of task.spec.retention) y.spec.start_time y.status.expiration_time)
  unfolding finish_record set_expiration
  finish_record-completes task y r u w' done held h =
      let later : CtrlResult = record { requeue_after = five_minutes } in
      let b = bound (set_expiration C task y) (λ r'. verify C r' >> pure later) h in
      let c = bound (verify C b.value) (λ _. pure later) b.second in
      let (dated, expiration, unverified) =
        expire_after_lem (max_age_days_of task.spec.retention) y b.value u b.middle done held
          b.first in
      let done' = ap is_completed dated.phase ∙ done in
      let (checked, same, fresh) =
        verify_lem b.value c.value b.middle c.middle done' dated.held c.first in
      (
        c.value,
        ap (λ w. S.stored w (key_of y.meta)) (sym (ok_world c.second))
            ∙ ap (S.stored c.middle) (sym (checked.named ∙ dated.named))
            ∙ checked.held,
        ap is_completed checked.phase ∙ done',
        fresh ∙ ap settle unverified,
        same ∙ expiration,
      )
