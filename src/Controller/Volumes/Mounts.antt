-- ===== src/Controller/Volumes/Mounts.antt =====
-- The volumes of the pod and the mounts of its container.
use backup_operator.Base.{◌≡◌, refl, ap, String, Option, none, some, List, [], ◌∷◌, ◌++◌, map}
use mathlib.Core.List.{Perm, append-nil, perm_middle}
use mathlib.Core.List.Perm
use backup_operator.Kube.{TypedLocalObjectReference, Volume, VolumeMount}
use backup_operator.Api.{
  NfsStorageSpec, DirectoryPath, DirectoryBackupSpec, BackupTarget, BackupTask,
}
use backup_operator.Controller.Volumes.{
  path_volume, path_volumes, directory_volumes, pvc_volumes, nfs_of, nfs_volumes, build_volumes,
  path_mount, path_mounts, directory_mounts, pvc_mounts, nfs_mounts, build_volume_mounts,
}

abbrev pub volume_names : List Volume → List String
volume_names = map (λ v. v.name)

abbrev pub mount_names : List VolumeMount → List String
mount_names = map (λ m. m.name)

pub map-++ : {A B : Type 0} (f : A → B) (xs ys : List A) → map f (xs ++ ys) ≡ map f xs ++ map f ys
map-++ f [] ys = refl
map-++ f (x ∷ xs) ys = ap (λ l. f x ∷ l) (map-++ f xs ys)

names_of_path :
    (p : DirectoryPath) (c : Option TypedLocalObjectReference)
    → mount_names (path_mount p c) ≡ volume_names (path_volume c)
names_of_path p none = refl
names_of_path p (some c) = refl

names_of_paths :
    (ps : List DirectoryPath) → mount_names (path_mounts ps) ≡ volume_names (path_volumes ps)
unfolding path_mounts path_volumes
names_of_paths [] = refl
names_of_paths (p ∷ ps) =
    rw
      (
        map-++ (λ m. m.name) (path_mount p p.pvc_ref) (path_mounts ps),
        map-++ (λ v. v.name) (path_volume p.pvc_ref) (path_volumes ps),
        names_of_path p p.pvc_ref,
        names_of_paths ps,
      )
      refl

names_of_directory :
    (d : Option DirectoryBackupSpec)
    → mount_names (directory_mounts d) ≡ volume_names (directory_volumes d)
names_of_directory none = refl
names_of_directory (some d) = names_of_paths d.paths

names_of_targets :
    (ts : List BackupTarget) → mount_names (pvc_mounts ts) ≡ volume_names (pvc_volumes ts)
unfolding pvc_mounts pvc_volumes
names_of_targets [] = refl
names_of_targets (t ∷ ts) =
    rw
      (
        map-++ (λ m. m.name) (directory_mounts t.directory) (pvc_mounts ts),
        map-++ (λ v. v.name) (directory_volumes t.directory) (pvc_volumes ts),
        names_of_directory t.directory,
        names_of_targets ts,
      )
      refl

names_of_nfs :
    (n : Option NfsStorageSpec) → mount_names (nfs_mounts n) ≡ volume_names (nfs_volumes n)
names_of_nfs none = refl
names_of_nfs (some n) = refl

append_comm : {A : Type 0} (xs ys : List A) → Perm (xs ++ ys) (ys ++ xs)
append_comm [] ys = rw append-nil Perm.rfl
append_comm (x ∷ xs) ys =
    Perm.trans (Perm.cons x (append_comm xs ys)) (Perm.symm (perm_middle ys xs))

names_of_all :
    (task : BackupTask)
    → Perm
        (mount_names (nfs_mounts (nfs_of task.spec.remote_storage) ++ pvc_mounts task.spec.targets))
        (volume_names
          (pvc_volumes task.spec.targets ++ nfs_volumes (nfs_of task.spec.remote_storage)))
names_of_all task =
    rw
      (
        map-++ (λ m. m.name) (nfs_mounts (nfs_of task.spec.remote_storage))
            (pvc_mounts task.spec.targets),
        map-++ (λ v. v.name) (pvc_volumes task.spec.targets)
            (nfs_volumes (nfs_of task.spec.remote_storage)),
        names_of_targets task.spec.targets,
        names_of_nfs (nfs_of task.spec.remote_storage),
      )
      (append_comm (volume_names (nfs_volumes (nfs_of task.spec.remote_storage)))
        (volume_names (pvc_volumes task.spec.targets)))

-- The container mounts exactly the volumes of its pod: the names of the mounts are those of the
-- volumes, each as often, in some order.
pub build_volume_mounts-volumes :
    (task : BackupTask)
    → Perm (mount_names (build_volume_mounts task)) (volume_names (build_volumes task))
unfolding build_volume_mounts build_volumes
build_volume_mounts-volumes task =
    Perm.cons "backup-data" (Perm.cons "temp" (Perm.cons "backup-config" (names_of_all task)))
