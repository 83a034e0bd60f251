-- ===== src/Controller/Volumes.antt =====
-- buildVolumes and buildVolumeMounts of internal/controller/backuptask_controller.go.
pub mod Mounts
use backup_operator.Base.{
  ℕ, ◌*◌, String, ◌<>◌, Bool, true, false, Option, none, some, List, [], ◌∷◌, ◌++◌,
}
use backup_operator.Kube.{
  TypedLocalObjectReference, binary_si, KeyToPath, empty_dir, config_map, persistent_volume_claim,
  nfs_volume, Volume, VolumeMount,
}
use backup_operator.Api.{
  RemoteStorageType, RemoteStorageSpec, NfsStorageSpec, DirectoryPath, DirectoryBackupSpec,
  BackupTarget, BackupTask,
}
use backup_operator.Controller.Constants.{
  backup_data_volume_name, temporary_volume_name, config_volume_name,
}

unfoldable pub get_target_config_map_name : BackupTask → String
get_target_config_map_name task = task.meta.name <> "-targets"

abbrev pub pvc_volume_name : String → String
pvc_volume_name claim = "pvc-" <> claim

-- The body of the inner loop, on `dirPath.PVCRef`.
abbrev pub path_volume : Option TypedLocalObjectReference → List Volume
path_volume none = []
path_volume (some pvc) =
    record { name = pvc_volume_name pvc.name; source = persistent_volume_claim pvc.name true } ∷ []

unfoldable pub path_volumes : List DirectoryPath → List Volume
path_volumes [] = []
path_volumes (p ∷ paths) = path_volume p.pvc_ref ++ path_volumes paths

abbrev pub directory_volumes : Option DirectoryBackupSpec → List Volume
directory_volumes none = []
directory_volumes (some d) = path_volumes d.paths

-- The loop over the targets.
unfoldable pub pvc_volumes : List BackupTarget → List Volume
unfolding path_volumes
pvc_volumes [] = []
pvc_volumes (t ∷ targets) = directory_volumes t.directory ++ pvc_volumes targets

-- `RemoteStorage.Type == RemoteStorageTypeNFS && RemoteStorage.NFS != nil`
abbrev pub nfs_section : RemoteStorageType → Option NfsStorageSpec → Option NfsStorageSpec
nfs_section RemoteStorageType.nfs section = section
nfs_section _ section = none

abbrev pub nfs_of : RemoteStorageSpec → Option NfsStorageSpec
nfs_of storage = nfs_section storage.type storage.nfs

abbrev pub nfs_volumes : Option NfsStorageSpec → List Volume
nfs_volumes none = []
nfs_volumes (some nfs) =
    record { name = "nfs-storage"; source = nfs_volume nfs.server nfs.path } ∷ []

abbrev pub key_to_path : String → KeyToPath
key_to_path key = record { key = key; path = key }

unfoldable pub build_volumes : BackupTask → List Volume
unfolding pvc_volumes get_target_config_map_name
build_volumes task =
    record {
      name = backup_data_volume_name;
      source = empty_dir (binary_si (10 * 1024 * 1024 * 1024));
    }
    ∷ record {
      name = temporary_volume_name;
      source = empty_dir (binary_si (5 * 1024 * 1024 * 1024));
    }
    ∷ record {
      name = config_volume_name;
      source =
          config_map (get_target_config_map_name task)
            (key_to_path "targets.json" ∷ key_to_path "remotestorage.json" ∷ []) 0o644;
    }
    ∷ (pvc_volumes task.spec.targets ++ nfs_volumes (nfs_of task.spec.remote_storage))

abbrev pub nfs_mounts : Option NfsStorageSpec → List VolumeMount
nfs_mounts none = []
nfs_mounts (some nfs) =
    record {
      name = "nfs-storage";
      mount_path = "/mnt/nfs-backup";
      sub_path = "";
      read_only = false;
    }
    ∷ []

abbrev pub path_mount : DirectoryPath → Option TypedLocalObjectReference → List VolumeMount
path_mount p none = []
path_mount p (some pvc) =
    record {
      name = pvc_volume_name pvc.name;
      mount_path = p.path;
      sub_path = p.sub_path;
      read_only = true;
    }
    ∷ []

unfoldable pub path_mounts : List DirectoryPath → List VolumeMount
path_mounts [] = []
path_mounts (p ∷ paths) = path_mount p p.pvc_ref ++ path_mounts paths

abbrev pub directory_mounts : Option DirectoryBackupSpec → List VolumeMount
directory_mounts none = []
directory_mounts (some d) = path_mounts d.paths

unfoldable pub pvc_mounts : List BackupTarget → List VolumeMount
unfolding path_mounts
pvc_mounts [] = []
pvc_mounts (t ∷ targets) = directory_mounts t.directory ++ pvc_mounts targets

unfoldable pub build_volume_mounts : BackupTask → List VolumeMount
unfolding pvc_mounts
build_volume_mounts task =
    record {
      name = backup_data_volume_name;
      mount_path = "/backup/data";
      sub_path = "";
      read_only = false;
    }
    ∷ record { name = temporary_volume_name; mount_path = "/tmp"; sub_path = ""; read_only = false }
    ∷ record {
      name = config_volume_name;
      mount_path = "/etc/backup/config";
      sub_path = "";
      read_only = true;
    }
    ∷ (nfs_mounts (nfs_of task.spec.remote_storage) ++ pvc_mounts task.spec.targets)
