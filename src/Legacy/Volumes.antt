-- ===== src/Legacy/Volumes.antt =====
-- buildVolumes and buildVolumeMounts of controllers/backuptask_controller.go.
pub mod Unmounted
use backup_operator.Base.{
  ℕ, suc, ◌*◌, pos, itoa, String, ◌<>◌, true, false, Option, none, some, List, [], ◌∷◌, ◌++◌,
  if◌then◌else◌,
}
use backup_operator.Kube.{
  TypedLocalObjectReference, SecretReference, binary_si, empty_dir, secret_volume, Volume,
  VolumeMount,
}
use backup_operator.Api.{
  SftpStorageSpec, RemoteStorageSpec, EncryptionSpec, DirectoryPath, DirectoryBackupSpec,
  BackupTarget, BackupTaskSpec, BackupTask,
}
use backup_operator.Controller.Constants.{backup_data_volume_name, temporary_volume_name}
use backup_operator.Controller.Volumes.{pvc_volume_name, pvc_volumes}

-- `if backupTask.Spec.RemoteStorage.SFTP != nil`, whatever the type of the storage is.
abbrev pub sftp_volumes : Option SftpStorageSpec → List Volume
sftp_volumes none = []
sftp_volumes (some sftp) =
    record { name = "sftp-secret"; source = secret_volume sftp.auth_secret_ref.name [] } ∷ []

abbrev pub encryption_volumes : Option EncryptionSpec → List Volume
encryption_volumes none = []
encryption_volumes (some e) =
    if e.enabled
    then record {
      name = "encryption-key";
      source =
          secret_volume e.key_secret_ref.name
            (record { key = "key"; path = "encryption.key" } ∷ []);
    }
      ∷ []
    else []

unfoldable pub build_volumes : BackupTask → List Volume
build_volumes task =
    record {
      name = backup_data_volume_name;
      source = empty_dir (binary_si (10 * 1024 * 1024 * 1024));
    }
    ∷ record {
      name = temporary_volume_name;
      source = empty_dir (binary_si (5 * 1024 * 1024 * 1024));
    }
    ∷ (pvc_volumes task.spec.targets
        ++ (sftp_volumes task.spec.remote_storage.sftp ++ encryption_volumes task.spec.encryption))

-- The body of the inner loop, at the index of the path in its target.
abbrev pub path_mount : ℕ → DirectoryPath → Option TypedLocalObjectReference → List VolumeMount
path_mount i p none = []
path_mount i p (some pvc) =
    record {
      name = pvc_volume_name pvc.name;
      mount_path = "/mnt/pvc-" <> itoa (pos i);
      sub_path = p.sub_path;
      read_only = true;
    }
    ∷ []

unfoldable pub path_mounts : ℕ → List DirectoryPath → List VolumeMount
path_mounts i [] = []
path_mounts i (p ∷ paths) = path_mount i p p.pvc_ref ++ path_mounts (suc i) paths

abbrev pub directory_mounts : Option DirectoryBackupSpec → List VolumeMount
directory_mounts none = []
directory_mounts (some d) = path_mounts 0 d.paths

unfoldable pub pvc_mounts : List BackupTarget → List VolumeMount
pvc_mounts [] = []
pvc_mounts (t ∷ targets) = directory_mounts t.directory ++ pvc_mounts targets

unfoldable pub build_volume_mounts : BackupTask → List VolumeMount
unfolding pvc_mounts
build_volume_mounts task =
    record {
      name = backup_data_volume_name;
      mount_path = "/backup/data";
      sub_path = "";
      read_only = false;
    }
    ∷ record { name = temporary_volume_name; mount_path = "/tmp"; sub_path = ""; read_only = false }
    ∷ pvc_mounts task.spec.targets
