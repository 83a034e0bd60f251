-- ===== src/Tests/Finishes.antt =====
-- A record that is completed in a run.
use backup_operator.Base.{
  ◌≡◌, ◌≢◌, refl, sym, ap, pos, true, none, some, [], ◌∷◌, ok, ok_value, Action,
}
use backup_operator.Kube.{NamespacedName, key_of}
use backup_operator.Api.{BackupRecord, completed}
use backup_operator.Client.{Client}
use backup_operator.Controller.Reconcile.{CtrlResult, five_minutes}
use backup_operator.Records.Jobs.{is_completed, with_phase, with_completion}
use backup_operator.Records.Reconcile.{finish_record}
use backup_operator.Records.Reconcile.Finishes.{AnswersStatus, due, settle, finish_record-completes}
use backup_operator.Records.Store.{RecordStore}
use backup_operator.Tests.Samples.{nightly, record_at, job_at}
use backup_operator.Tests.Store.{Store, store_client, store, put}

-- The sample server with the task and a job that succeeded, for a way to update a status.
abbrev server : (BackupRecord → Action Store BackupRecord) → Client
server update = record store_client {
  get_task = λ k w. (ok nightly, w);
  list_jobs = λ namespace labels w. (ok (job_at "b" (pos 3) (pos 1) (pos 0) ∷ []), w);
  update_record_status = update;
}

abbrev Elsewhere : (BackupRecord → Action Store BackupRecord) → Type 0
Elsewhere update =
    (r : BackupRecord) (k : NamespacedName) (w : Store)
    → key_of r.meta ≢ k
    → store.stored (update r w).1 k ≡ store.stored w k

abbrev Stores : (BackupRecord → Action Store BackupRecord) → Type 0
Stores update =
    (r r' : BackupRecord) (w w' : Store)
    → update r w ≡ (ok r', w')
    → (store.stored w' (key_of r.meta) ≡ some r')
      × (key_of r'.meta ≡ key_of r.meta)
      × (r'.status.phase ≡ r.status.phase)

abbrev server_store :
    (update : BackupRecord → Action Store BackupRecord)
    → Elsewhere update
    → Stores update
    → RecordStore (server update)
server_store update elsewhere stores = record {
  stored = store.stored;
  now_keeps = store.now_keeps;
  get_task_keeps = λ n k w. refl;
  list_jobs_keeps = λ namespace labels k w. refl;
  list_pods_keeps = store.list_pods_keeps;
  get_record_keeps = store.get_record_keeps;
  get_record_reads = store.get_record_reads;
  update_elsewhere = elsewhere;
  update_stores = stores;
}

abbrev steady : Client
steady = server store_client.update_record_status

abbrev steady_store : RecordStore steady
steady_store =
    server_store store_client.update_record_status store.update_elsewhere store.update_stores

abbrev opened : BackupRecord
opened = record_at "a" (pos 10)

abbrev done : BackupRecord
done = with_completion (pos 1000) (with_phase completed opened)

abbrev empty : Store
empty = λ k. none

abbrev later : CtrlResult
later = record { requeue_after = five_minutes }

steady-AnswersStatus : AnswersStatus steady
steady-AnswersStatus r r' w w' h = sym (ap (λ q. q.status) (ok_value h))

steady_ends :
    finish_record steady nightly done (put done empty)
    ≡ (ok later, (finish_record steady nightly done (put done empty)).1)
unfolding finish_record
steady_ends = refl

finish_record-completes_example :
    (z : BackupRecord) × (store.stored
        (finish_record steady nightly done (put done empty)).1
        (key_of done.meta)
      ≡ some z)
    × (is_completed z.status.phase ≡ true)
    × (z.status.verification_status.result ≡ settle done.status.verification_status.result)
    × (z.status.expiration_time ≡ due (some (pos 7)) (pos 10) done.status.expiration_time)
finish_record-completes_example =
    finish_record-completes steady_store steady-AnswersStatus nightly done later (put done empty)
      (finish_record steady nightly done (put done empty)).1 refl refl steady_ends
