-- ===== src/Records/Jobs/Latest.antt =====
-- The choice of the job by checkBackupJobStatus.
use backup_operator.Base.{
  ◌≡◌, refl, inl, inr, ltb_ℤ, ◌≤ℤ◌, Bool-cases, true, false, none, some, List, [], ◌∷◌, All, Place,
  zero, suc, arith,
}
use backup_operator.Kube.{Time, Job}
use backup_operator.Records.Jobs.{latest_job}

abbrev pub created : Job → Time
created job = job.meta.creation_timestamp

abbrev pub NoneLater : Job → List Job → Type 0
NoneLater best = All (λ job. created job ≤ℤ created best)

-- What the loop finds, from the job that is best so far.
record Found (b : Job) (jobs : List Job) : Type 0 where
  pub best : Job
  pub found : latest_job (some b) jobs ≡ some best
  pub place : Place best (b ∷ jobs)
  pub above : created b ≤ℤ created best
  pub later : NoneLater best jobs

older :
    (b j best : Job)
    → ltb_ℤ (created b) (created j) ≡ true
    → created j ≤ℤ created best
    → created b ≤ℤ created best
older b j best h k = ground arith

not_older :
    (b j best : Job)
    → ltb_ℤ (created b) (created j) ≡ false
    → created b ≤ℤ created best
    → created j ≤ℤ created best
not_older b j best h k = ground arith

skip_one :
    {A : Type 0} {x : A} (b j : A) (jobs : List A) → Place x (b ∷ jobs) → Place x (b ∷ j ∷ jobs)
skip_one b j jobs (zero, h) = (zero, h)
skip_one b j jobs (suc i, h) = (suc (suc i), h)

find_latest : (b : Job) (jobs : List Job) → Found b jobs
unfolding latest_job
find_latest b [] = record {
  best = b;
  found = refl;
  place = (0, refl);
  above = omega arith;
  later = tt;
}
find_latest b (j ∷ jobs) = elim (Bool-cases (ltb_ℤ (created b) (created j))) [
  | inl newer ↦
      let f = find_latest j jobs in
      record {
        best = f.best;
        found = rw newer f.found;
        place = (suc f.place.0, f.place.1);
        above = older b j f.best newer f.above;
        later = (f.above, f.later);
      }
  | inr older ↦
      let f = find_latest b jobs in
      record {
        best = f.best;
        found = rw older f.found;
        place = skip_one b j jobs f.place;
        above = f.above;
        later = (not_older b j f.best older f.above, f.later);
      }
]

-- Of a list of jobs that is not empty, the loop of checkBackupJobStatus chooses one, which stands in
-- the list, and no job of the list was created later.
pub latest_job_lem :
    (job : Job) (jobs : List Job)
    → (best : Job) × (latest_job none (job ∷ jobs) ≡ some best)
      × Place best (job ∷ jobs)
      × NoneLater best (job ∷ jobs)
unfolding latest_job
latest_job_lem job jobs =
    let f = find_latest job jobs in (f.best, f.found, f.place, (f.above, f.later))
