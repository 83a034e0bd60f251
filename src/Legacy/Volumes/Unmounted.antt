-- ===== src/Legacy/Volumes/Unmounted.antt =====
-- The volumes of the pod and the mounts of its container, in the older controller.

use backup_operator.Base.{List, ◌++◌}
use backup_operator.Kube.{Volume}
use backup_operator.Api.{BackupTask}
use backup_operator.Legacy.Volumes.{sftp_volumes, encryption_volumes}

-- The secrets of the pod.
abbrev pub secret_volumes : BackupTask → List Volume
secret_volumes task =
    sftp_volumes task.spec.remote_storage.sftp ++ encryption_volumes task.spec.encryption
