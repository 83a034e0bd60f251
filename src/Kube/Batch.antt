-- ===== src/Kube/Batch.antt =====
-- batchv1 and the ConfigMap.
use backup_operator.Base.{ℕ, ℤ, String, Bool, Option, List}
use backup_operator.Kube.Meta.{ObjectMeta, ObjectReference, Labels, Time}
use backup_operator.Kube.Pods.{PodSpec}

pub record PodTemplate : Type 0 where
  pub labels : Labels
  pub spec : PodSpec

pub record JobSpec : Type 0 where
  pub backoff_limit : ℕ
  pub ttl_seconds_after_finished : ℕ
  pub template : PodTemplate

pub record JobTemplateSpec : Type 0 where
  pub labels : Labels
  pub spec : JobSpec

pub record CronJobSpec : Type 0 where
  pub schedule : String
  pub starting_deadline_seconds : ℕ
  pub concurrency_policy : String
  pub suspend : Option Bool
  pub successful_jobs_history_limit : ℕ
  pub failed_jobs_history_limit : ℕ
  pub job_template : JobTemplateSpec

pub record CronJobStatus : Type 0 where
  pub active : List ObjectReference
  pub last_schedule_time : Option Time

pub record CronJob : Type 0 where
  pub meta : ObjectMeta
  pub spec : CronJobSpec
  pub status : CronJobStatus

-- A Job with `Status.Succeeded`, `Status.Failed` and `Spec.Selector`, by its `MatchLabels`.
pub record Job : Type 0 where
  pub meta : ObjectMeta
  pub succeeded : ℤ
  pub failed : ℤ
  pub selector : Option Labels

pub record ConfigMap : Type 0 where
  pub meta : ObjectMeta
  pub contents : Labels
