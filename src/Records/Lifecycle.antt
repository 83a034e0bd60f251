-- ===== src/Records/Lifecycle.antt =====
-- The life of a record under the record controller: runs for any records, and events elsewhere.
use backup_operator.Base.{
  ◌≡◌, refl, sym, ap, ◌∙◌, ◌≢◌, Bool-cases, true, false, inl, inr, ◌||◌, some, Outcome, ok, fail,
  panic, Error, is_not_found, pure, raise, resume, if◌then◌else◌,
}
use backup_operator.Kube.{NamespacedName, key_of}
use backup_operator.Kube.Keys.{key-cases}
use backup_operator.Api.{BackupRecord, expired}
use backup_operator.Client.{Client}
use backup_operator.Controller.Reconcile.{CtrlResult, no_requeue}
use backup_operator.Records.Jobs.{is_completed, is_failed}
use backup_operator.Records.Reconcile.{reconcile_backup_record, reconcile_record, expire}
use backup_operator.Records.Reconcile.Runs.{is_settled, task_key, expired_record}
use backup_operator.Records.Store.{
  RecordStore, Frames, AnswersWith, Anything, attempt-Frames, pure-Frames, raise-Frames,
}
use backup_operator.Records.Frames.{if-Frames, reconcile_backup_record-Frames}

module _ {C : Client} (S : RecordStore C) where
  get_record-Frames :
      (request k : NamespacedName)
      → Frames S k (λ r. key_of r.meta ≡ request) (C.get_record request)
  get_record-Frames request k = record {
    keeps = S.get_record_keeps request k;
    answers = λ w. named w (C.get_record request w) refl;
  }
    where
      named :
          (w : C.World) (o : Outcome BackupRecord × C.World)
          → C.get_record request w ≡ o
          → AnswersWith (λ r. key_of r.meta ≡ request) o.0
      named w (ok r, v) e = (S.get_record_reads request w v r e).1
      named w (fail x, v) e = tt
      named w (panic m, v) e = tt

  -- Reconciling a record changes no other record.
  pub reconcile_record-others :
      (request k : NamespacedName) (w : C.World)
      → request ≢ k
      → S.stored (reconcile_record C request w).1 k ≡ S.stored w k
  unfolding reconcile_record
  reconcile_record-others request k w differ = frame.keeps w
    where
      frame : Frames S k Anything (reconcile_record C request)
      frame =
          attempt-Frames S k (get_record-Frames request k)
            (λ r named.
              if-Frames S k (is_completed r.status.phase || is_failed r.status.phase)
                (pure-Frames S k no_requeue tt)
                (reconcile_backup_record-Frames S k r (λ same. differ (sym named ∙ same))))
            (λ e.
              if-Frames S k (is_not_found e) (pure-Frames S k no_requeue tt) (raise-Frames S k e))

  -- What the first call of a run found decides the rest.
  after_get : Outcome BackupRecord × C.World → Outcome CtrlResult × C.World
  after_get o =
      resume o (λ r. if is_settled r then pure no_requeue else reconcile_backup_record C r)
        (λ e. if is_not_found e then pure no_requeue else raise e)

  world_of_error :
      (e : Error) (v : C.World)
      → ((if is_not_found e then pure {A = CtrlResult} no_requeue else raise e) v).1 ≡ v
  world_of_error e v = elim (Bool-cases (is_not_found e)) [ inl y ↦ rw y refl | inr n ↦ rw n refl ]

  settled_stays :
      (k : NamespacedName) (w : C.World) (r : BackupRecord) (o : Outcome BackupRecord × C.World)
      → C.get_record k w ≡ o
      → S.stored w k ≡ some r
      → is_settled r ≡ true
      → (after_get o).1 ≡ o.1
  unfolding after_get
  settled_stays k w r (ok x, v) e here settled =
      let same : some x ≡ some r = sym (S.get_record_reads k w v x e).0 ∙ here in
      let done : is_settled x ≡ true = cc in rw done refl
  settled_stays k w r (fail x, v) e here settled = world_of_error x v
  settled_stays k w r (panic m, v) e here settled = refl

  -- A run for the record itself leaves it as it is, once it is settled.
  own_run :
      (k : NamespacedName) (w : C.World) (r : BackupRecord)
      → S.stored w k ≡ some r
      → is_settled r ≡ true
      → S.stored (reconcile_record C k w).1 k ≡ some r
  unfolding reconcile_record after_get
  own_run k w r here settled =
      ap (λ v. S.stored v k) (settled_stays k w r (C.get_record k w) refl here settled)
      ∙ S.get_record_keeps k k w
      ∙ here

  -- The controller runs for any records in any order; between the runs the record at `k` stays as it
  -- is, whatever else happens.
  pub data Runs (k : NamespacedName) : C.World → C.World → Type 0 where
    stop : {w : C.World} → Runs k w w
    run :
        (request : NamespacedName) {w w' : C.World}
        → Runs k (reconcile_record C request w).1 w'
        → Runs k w w'
    event : {w v w' : C.World} → S.stored v k ≡ S.stored w k → Runs k v w' → Runs k w w'

  one_run :
      (request k : NamespacedName) (w : C.World) (r : BackupRecord)
      → S.stored w k ≡ some r
      → is_settled r ≡ true
      → S.stored (reconcile_record C request w).1 k ≡ some r
  one_run request k w r here settled = elim (key-cases request k) [
    | inl same ↦ rw same (own_run k w r here settled)
    | inr differ ↦ reconcile_record-others request k w differ ∙ here
  ]

  -- A record that is completed or failed stays exactly as it is, however often the controller runs
  -- for it or for others, as long as nobody else changes it.
  pub settled_forever :
      (k : NamespacedName) (w w' : C.World) (r : BackupRecord)
      → S.stored w k ≡ some r
      → is_settled r ≡ true
      → Runs k w w'
      → S.stored w' k ≡ some r
  settled_forever k w w' r here settled stop = here
  settled_forever k w w' r here settled (run request runs) =
      settled_forever k (reconcile_record C request w).1 w' r (one_run request k w r here settled)
        settled runs
  settled_forever k w w' r here settled (event {v = v} same runs) =
      settled_forever k v w' r (same ∙ here) settled runs

  -- A record that is not settled and whose task is gone is stored with the phase expired, and is not
  -- asked for again, if the server takes the update.
  pub orphan_expires :
      (k : NamespacedName) (w v u w' : C.World) (r y : BackupRecord) (e : Error)
      → C.get_record k w ≡ (ok r, v)
      → is_settled r ≡ false
      → C.get_task (task_key r) v ≡ (fail e, u)
      → is_not_found e ≡ true
      → C.update_record_status (expired_record r) u ≡ (ok y, w')
      → (reconcile_record C k w ≡ (ok no_requeue, w'))
        × (S.stored w' k ≡ some y)
        × (y.status.phase ≡ expired)
  unfolding reconcile_record reconcile_backup_record expire
  orphan_expires k w v u w' r y e got todo lost missing sent =
      let (stored, named, phase) = S.update_stores (expired_record r) y u w' sent in
      (
        rw (got, todo, lost, missing, sent) refl,
        ap (λ n. S.stored w' n) (sym (S.get_record_reads k w v r got).1) ∙ stored,
        phase,
      )
