-- ===== src/Tests/Samples.antt =====
-- Objects to test on.
use backup_operator.Base.{ℤ, pos, String, true, false, none, some, [], ◌∷◌}
use backup_operator.Kube.{SecretReference, Job}
use backup_operator.Api.{
  database, directory, DatabaseBackupSpec, BackupTarget, RemoteStorageType, RemoteStorageSpec,
  pending, running, unset_result, RetentionPolicy, BackupTaskStatus, BackupTask, BackupRecord,
}
use backup_operator.Controller.Constants.{backup_task_finalizer, backup_task_label_key}
use backup_operator.Controller.Reconcile.{new_meta}

abbrev pub secret : String → SecretReference
secret name = record { name = name; namespace = "" }

abbrev pub mysql : DatabaseBackupSpec
mysql = record {
  type = "mysql";
  host = "db";
  port = none;
  database = "shop";
  auth_secret_ref = secret "db-auth";
  extra_args = [];
  enable_pitr = false;
}

abbrev pub shop : BackupTarget
shop = record {
  name = "shop-db";
  type = database;
  database = some mysql;
  config = none;
  directory = none;
  nfs = none;
}

abbrev pub files : BackupTarget
files = record {
  name = "files";
  type = directory;
  database = none;
  config = none;
  directory = some (record {
    paths =
        record {
          path = "/data";
          pvc_ref =
              some (record { api_group = none; kind = "PersistentVolumeClaim"; name = "data" });
          sub_path = "";
        }
        ∷ [];
    exclude_patterns = [];
    compression_level = some (pos 6);
  });
  nfs = none;
}

abbrev pub nfs_server : RemoteStorageSpec
nfs_server = record {
  type = RemoteStorageType.nfs;
  s3 = none;
  sftp = none;
  nfs = some (record { server = "nas"; path = "/backups"; mount_options = [] });
  smb = none;
}

abbrev pub keep_two : RetentionPolicy
keep_two = record {
  max_age_days = some (pos 7);
  max_backup_count = some (pos 2);
  keep_last = some (record { hours = pos 0; days = pos 3; weeks = pos 0; months = pos 1 });
}

abbrev pub new_status : BackupTaskStatus
new_status = record {
  observed_generation = pos 0;
  phase = pending;
  last_scheduled_time = none;
  last_successful_time = none;
  last_completion_time = none;
  active_backup_job = none;
  backup_history_count = pos 0;
  conditions = [];
  next_schedule_time = none;
}

abbrev pub nightly : BackupTask
nightly = record {
  meta = record (new_meta "nightly" "prod" []) {
    uid = "u-1";
    finalizers = backup_task_finalizer ∷ [];
    generation = pos 3;
  };
  spec = record {
    schedule = "0 2 * * *";
    retention = some keep_two;
    targets = shop ∷ files ∷ [];
    remote_storage = nfs_server;
    encryption = some (record {
      enabled = true;
      algorithm = "";
      key_secret_ref = secret "backup-key";
      encrypt_after_compress = none;
    });
    pod_template = none;
    post_backup_hooks = [];
    resources = none;
    backup_image = "agent:2";
    backup_cmd = "";
  };
  status = new_status;
}

-- The same without a schedule that can be read.
abbrev pub unscheduled : BackupTask
unscheduled = record nightly { spec = record (nightly.spec) { schedule = "tonight" } }

abbrev pub deleted : BackupTask
deleted = record nightly { meta = record (nightly.meta) { deletion_timestamp = some (pos 100) } }

abbrev pub record_at : String → ℤ → BackupRecord
record_at name created = record {
  meta = record (new_meta name "prod" ((backup_task_label_key, "nightly") ∷ [])) {
    creation_timestamp = created;
  };
  spec = record {
    backup_task_ref = record {
      api_version = "";
      kind = "BackupTask";
      name = "nightly";
      namespace = "prod";
      uid = "u-1";
    };
    start_time = created;
    completion_time = none;
    backup_files = [];
    statistics = none;
    labels = [];
  };
  status = record {
    phase = running;
    error = "";
    verification_status = record { verified_at = none; result = unset_result; message = "" };
    expiration_time = none;
  };
}

abbrev pub job_at : String → ℤ → ℤ → ℤ → Job
job_at name created succeeded failed = record {
  meta = record (new_meta name "prod" []) { creation_timestamp = created };
  succeeded = succeeded;
  failed = failed;
  selector = some [];
}
