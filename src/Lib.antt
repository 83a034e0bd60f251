-- ===== src/Lib.antt =====
-- The backup operator: a Kubernetes operator in Go that runs backups as CronJobs.
--
-- A user declares a BackupTask (schedule, targets, remote storage, retention, encryption). The task
-- controller turns it into a ConfigMap with the targets and a CronJob whose pods run the backup
-- agent, keeps the status of the task, deletes BackupRecords by the retention policy, and cleans up
-- behind a finalizer when the task is deleted. The record controller follows the jobs of a task and
-- notes in a BackupRecord how its run ended. An admission webhook fills in defaults and validates.
-- All state is in the API server; the controllers keep none.
--
-- Files, and what they model (paths from the root of the repository):
--   Base        shared names, lists on native numbers, integers with the wrap-around of Go's int64
--               and int32, decimal texts, Go errors and panics as values, and the monad of calls
--   Kube        the parts of the Kubernetes API types that the operator reads or writes
--   Api         api/v1alpha1/backuptask_types.go and backuprecord_types.go: one record per struct,
--               one data type per named string type
--   Json        JSON values, the text of json.MarshalIndent with a reader that gets the value back from
--               it, and the targets and the remote storage as JSON by the tags of backuptask_types.go,
--               with readers of them
--   Webhook     api/v1alpha1/backuptask_webhook.go: Cron is isValidCronSchedule, Targets and Storage
--               are the sub-validators, Validate is validateBackupTask, Admission has Default and
--               the Validate methods, and the handlers of
--               internal/webhook/v1alpha1/backuptask_webhook.go
--   Client      the calls that the controllers make on code outside the repository, as a record
--   Controller  internal/controller/backuptask_controller.go and constants.go: EnvVars, Volumes,
--               PodSpecs and CronJobs build the objects, Status is updateBackupTaskStatus and
--               updateConditions, Retention is applyRetentionPolicy and filterRecordsToDelete,
--               Reconcile is Reconcile, reconcileBackupTask, createOrUpdateCronJob,
--               createTargetConfigMap and finalizeBackupTask. Objects is the abstract state of a
--               cluster and what a reconciliation means to do to it, Server says what the
--               controller relies on in a cluster whose calls succeed
--   Records     controllers/backuprecord_controller.go: Jobs is checkBackupJobStatus with its
--               helpers, Reconcile is Reconcile and reconcileBackupRecord; and the stub reconciler
--               of internal/controller/backuprecord_controller.go. Store says what the controller
--               relies on in the cluster, Lifecycle is about runs of the controller in any order
--   Legacy      controllers/backuptask_controller.go: the parts in which this older task controller
--               differs from the one of internal/controller
--   Manager     cmd/main.go: Options are the flags and the options made of them, Setup the
--               registrations of the controllers and webhooks, Main is init and main
--   Tests       sample objects, a small cluster in memory, and the theorems at these inputs
-- The definitions have the names of the Go functions in snake case. The theorems about a module
-- stand in the modules below it.
--
-- How the code is read. A pointer is an option, an `int32` or an `int64` an integer; a time or a
-- duration is a number of nanoseconds, whose difference stops at the limits of `int64`. A slice
-- expression out of range is a panic. A function that changes an object through a pointer returns
-- the object as it leaves it. A call in the cluster is a function from the world to an outcome (a
-- value, an error or a panic) and the new world. A write returns the object as the server answers,
-- which is what the client leaves in the caller's variable. The loops of the source are recursions
-- on lists. The decimal text of a number n takes at most n + 1 divisions by ten, since each makes
-- the rest smaller until it is below ten. The reader of a JSON text takes a round for each value, item,
-- field and character, at most.
--
-- Not modelled: log lines; the parsing of the command line and the flags of the logger; generated
-- code; the tests. Parameters of the model, because their code is not in the repository or is a
-- table of the Go library: the API client with CreateOrUpdate, SetControllerReference, the finalizer
-- helpers and the event recorder, the clock, the JSON of the types of
-- Kubernetes, the upper case of a character, and
-- the format of a number of seconds with two places. The regular expression of the schedule is
-- matched by a matcher for the operators that it uses. A list does not tell a nil slice from an empty
-- one: an empty list without `omitempty` is written as null, as the nil slice is.
pub mod Base
pub mod Kube
pub mod Api
pub mod Json
pub mod Webhook
pub mod Client
pub mod Controller
pub mod Records
pub mod Legacy
pub mod Manager
mod Tests
