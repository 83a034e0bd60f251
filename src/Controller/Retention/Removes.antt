-- ===== src/Controller/Retention/Removes.antt =====
-- The retention against a cluster in which every deletion succeeds.
use backup_operator.Base.{
  resume_ok, ◌≡◌, refl, ap, sym, ◌∙◌, ℕ, zero, suc, none, some, List, [], ◌∷◌, Place, get_elem?, ok,
}
use backup_operator.Kube.{NamespacedName, key_of}
use backup_operator.Api.{RetentionPolicy, BackupTask, BackupRecord}
use backup_operator.Client.{Client}
use backup_operator.Controller.Constants.{backup_task_label_key}
use backup_operator.Controller.Retention.{filter_records_to_delete, delete_records, apply_policy}
use backup_operator.Controller.Retention.Choice.{IsDoomed, HasCount, filter_records_choice}
use backup_operator.Controller.Retention.Spares.{with_history}
use backup_operator.Records.Store.{RecordStore}

-- A deletion succeeds, after it the record is gone, and a record that is gone stays gone.
pub record DeletionsSucceed {C : Client} (S : RecordStore C) : Type 0 where
  pub succeeds : (r : BackupRecord) (w : C.World) → (C.delete_record r w).0 ≡ ok tt
  pub removes :
      (r : BackupRecord) (w : C.World) → S.stored (C.delete_record r w).1 (key_of r.meta) ≡ none
  pub restores_nothing :
      (r : BackupRecord) (k : NamespacedName) (w : C.World)
      → S.stored w k ≡ none
      → S.stored (C.delete_record r w).1 k ≡ none

module _ {C : Client} {S : RecordStore C} (D : DeletionsSucceed S) where
  delete_records-cons :
      (r : BackupRecord) (rs : List BackupRecord) (w : C.World)
      → delete_records C (r ∷ rs) w ≡ delete_records C rs (C.delete_record r w).1
  unfolding delete_records
  delete_records-cons r rs w = resume_ok (C.delete_record r w) _ _ (D.succeeds r w)

  pub delete_records-succeeds :
      (rs : List BackupRecord) (w : C.World) → (delete_records C rs w).0 ≡ ok tt
  unfolding delete_records
  delete_records-succeeds [] w = refl
  delete_records-succeeds (r ∷ rs) w =
      ap (λ o. o.0) (delete_records-cons r rs w)
      ∙ delete_records-succeeds rs (C.delete_record r w).1

  delete_records-restores_nothing :
      (rs : List BackupRecord) (k : NamespacedName) (w : C.World)
      → S.stored w k ≡ none
      → S.stored (delete_records C rs w).1 k ≡ none
  unfolding delete_records
  delete_records-restores_nothing [] k w gone = gone
  delete_records-restores_nothing (r ∷ rs) k w gone =
      ap (λ o. S.stored o.1 k) (delete_records-cons r rs w)
      ∙ delete_records-restores_nothing rs k (C.delete_record r w).1 (D.restores_nothing r k w gone)

  pub delete_records-removes :
      (rs : List BackupRecord) (r : BackupRecord) (w : C.World)
      → Place r rs
      → S.stored (delete_records C rs w).1 (key_of r.meta) ≡ none
  delete_records-removes [] r w (i, here) = absurd cc
  delete_records-removes (x ∷ rs) r w (zero, here) =
      let same : x ≡ r = cc in
      ap (λ o. S.stored o.1 (key_of r.meta)) (delete_records-cons x rs w)
      ∙ delete_records-restores_nothing rs (key_of r.meta) (C.delete_record x w).1
          (ap (λ y. S.stored (C.delete_record x w).1 (key_of y.meta)) (sym same) ∙ D.removes x w)
  delete_records-removes (x ∷ rs) r w (suc i, here) =
      ap (λ o. S.stored o.1 (key_of r.meta)) (delete_records-cons x rs w)
      ∙ delete_records-removes rs r (C.delete_record x w).1 (i, here)

  -- If the listing and every deletion succeed and the maximal count is absent or not negative, the
  -- retention succeeds, the history count it notes is the number of records listed less the number
  -- chosen, as a 32-bit integer, and afterwards every listed record at or past the count or past the
  -- maximal age is gone from the cluster.
  pub apply_policy-removes :
      (task : BackupTask) (policy : RetentionPolicy) (w v : C.World) (rs : List BackupRecord)
      → C.list_records task.meta.namespace ((backup_task_label_key, task.meta.name) ∷ []) w
        ≡ (ok rs, v)
      → HasCount policy.max_backup_count
      → ((doomed : List BackupRecord) × (filter_records_to_delete (C.now v).0 rs policy ≡ ok doomed)
          × ((apply_policy C task policy w).0 ≡ ok (with_history task rs doomed)))
        × ((i : ℕ) (r : BackupRecord)
            → get_elem? rs i ≡ some r
            → IsDoomed (C.now v).0 policy i r
            → S.stored (apply_policy C task policy w).1 (key_of r.meta) ≡ none)
  unfolding apply_policy
  apply_policy-removes task policy w v rs listed counted =
      let (doomed, chosen, places) = filter_records_choice (C.now v).0 rs policy counted in
      let tried = delete_records C doomed (C.now v).1 in
      let done : apply_policy C task policy w ≡ (ok (with_history task rs doomed), tried.1) =
        rw (listed, chosen) (resume_ok tried _ _ (delete_records-succeeds doomed (C.now v).1)) in
      (
        (doomed, chosen, ap (λ o. o.0) done),
        λ i r here d.
            ap (λ o. S.stored o.1 (key_of r.meta)) done
            ∙ delete_records-removes doomed r (C.now v).1 ((places r).1 (i, here, d)),
      )
