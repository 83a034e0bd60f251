-- ===== src/Controller/Constants.antt =====
-- internal/controller/constants.go
use backup_operator.Base.{String}

abbrev pub backup_task_finalizer : String
backup_task_finalizer = "backup.mybackup.com/finalizer"

abbrev pub backup_task_label_key : String
backup_task_label_key = "backup.mybackup.com/backup-task"

abbrev pub backup_task_uid_label_key : String
backup_task_uid_label_key = "backup.mybackup.com/backup-task-uid"

abbrev pub created_by_label_key : String
created_by_label_key = "backup.mybackup.com/created-by"

abbrev pub backup_container_name : String
backup_container_name = "backup"

abbrev pub default_backup_image : String
default_backup_image = "backup-agent:latest"

abbrev pub default_backup_cmd : String
default_backup_cmd = "/backup/scripts/backup.sh"

abbrev pub backup_data_volume_name : String
backup_data_volume_name = "backup-data"

abbrev pub config_volume_name : String
config_volume_name = "backup-config"

abbrev pub temporary_volume_name : String
temporary_volume_name = "temp"
