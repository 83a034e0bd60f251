-- ===== src/Controller/Retention/Spares.antt =====
-- The retention against the records that the cluster keeps.
use backup_operator.Base.{
  ◌≡◌, refl, sym, ap, ◌∙◌, ◌≢◌, ℕ, pos, ◌-ℤ◌, wrap32, length, String, some, List, [], ◌∷◌, All,
  Place, get_elem?, ok, suc,
}
use backup_operator.Kube.{NamespacedName, Labels, key_of}
use backup_operator.Api.{RetentionPolicy, BackupTask, BackupRecord}
use backup_operator.Client.{Client}
use backup_operator.Controller.Constants.{backup_task_label_key}
use backup_operator.Controller.Retention.{delete_records, apply_policy}
use backup_operator.Controller.Retention.Choice.{IsDoomed, HasCount, filter_records_choice}
use backup_operator.Records.Store.{
  RecordStore, Frames, Anything, attempt-Frames, bind-Frames, pure-Frames, call-Frames,
}

All-Place : {A : Type 0} (P : A → Type 0) (xs : List A) → ((x : A) → Place x xs → P x) → All P xs
All-Place P [] h = tt
All-Place P (x ∷ xs) h = (h x (0, refl), All-Place P xs (λ y p. h y (suc p.0, p.1)))

-- What the retention relies on beyond the laws of a record store: a listing changes nothing, and a deletion changes no
-- record but its own.
pub record DeletesRecords {C : Client} (S : RecordStore C) : Type 0 where
  pub list_records_keeps :
      (namespace : String) (labels : Labels) (k : NamespacedName) (w : C.World)
      → S.stored (C.list_records namespace labels w).1 k ≡ S.stored w k
  pub delete_elsewhere :
      (r : BackupRecord) (k : NamespacedName) (w : C.World)
      → key_of r.meta ≢ k
      → S.stored (C.delete_record r w).1 k ≡ S.stored w k

abbrev pub with_history : BackupTask → List BackupRecord → List BackupRecord → BackupTask
with_history task rs doomed = record task {
  status = record (task.status) {
    backup_history_count = wrap32 (pos (length rs) -ℤ pos (length doomed));
  };
}

module _ {C : Client} {S : RecordStore C} (D : DeletesRecords S) where
  delete_records-Frames :
      (k : NamespacedName) (rs : List BackupRecord)
      → All (λ r. key_of r.meta ≢ k) rs
      → Frames S k Anything (delete_records C rs)
  unfolding delete_records
  delete_records-Frames k [] others = pure-Frames S k tt tt
  delete_records-Frames k (r ∷ rs) others =
      let rest = delete_records-Frames k rs others.1 in
      attempt-Frames S k
        (call-Frames S k {a = C.delete_record r} (λ w. D.delete_elsewhere r k w others.0))
        (λ x p. rest) (λ e. rest)

  -- If the listing succeeded and the maximal count is absent or not negative, the retention leaves
  -- the stored record of a name as it is when none of the listed records of that name is chosen,
  -- whatever the deletions of the others return.
  pub apply_policy-spares :
      (task : BackupTask) (policy : RetentionPolicy) (k : NamespacedName) (w v : C.World)
      (rs : List BackupRecord)
      → C.list_records task.meta.namespace ((backup_task_label_key, task.meta.name) ∷ []) w
        ≡ (ok rs, v)
      → HasCount policy.max_backup_count
      → ((i : ℕ) (r : BackupRecord)
          → get_elem? rs i ≡ some r
          → key_of r.meta ≡ k
          → ¬ IsDoomed (C.now v).0 policy i r)
      → S.stored (apply_policy C task policy w).1 k ≡ S.stored w k
  unfolding apply_policy
  apply_policy-spares task policy k w v rs listed counted spared =
      let (doomed, chosen, places) = filter_records_choice (C.now v).0 rs policy counted in
      let others =
        All-Place (λ r. key_of r.meta ≢ k) doomed
          (λ r p same. let (i, here, d) = (places r).0 p in spared i r here same d) in
      let tail =
        bind-Frames S k {Q = Anything} (delete_records-Frames k doomed others)
          (λ x p. pure-Frames S k (with_history task rs doomed) tt) in
      rw (listed, chosen) (tail.keeps (C.now v).1)
      ∙ S.now_keeps k v
      ∙ sym (ap (λ o. S.stored o.1 k) listed)
      ∙ D.list_records_keeps task.meta.namespace ((backup_task_label_key, task.meta.name) ∷ []) k w
