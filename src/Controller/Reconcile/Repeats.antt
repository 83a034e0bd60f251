-- ===== src/Controller/Reconcile/Repeats.antt =====
-- Several reconciliations in a row: of one task, and of two tasks in either order.
use backup_operator.Base.{◌≡◌, refl, sym, ap, ◌∙◌, ◌≢◌, some, ok}
use backup_operator.Kube.{ConfigMap, key_of}
use backup_operator.Kube.Keys.{put_key_self, put_key_ne}
use backup_operator.Api.{BackupTask}
use backup_operator.Client.{Client}
use backup_operator.Controller.Objects.{declared, guarded, guarded_finalizers, converge}
use backup_operator.Controller.Objects.Built.{create_target_config_map-same}
use backup_operator.Controller.Objects.Laws.{guarded_twice, converge_twice, converge_comm}
use backup_operator.Controller.Server.{Server}
use backup_operator.Controller.Reconcile.{with_finalizers, create_target_config_map, reconcile}
use backup_operator.Controller.Reconcile.Converges.{IsHeld, converge-same, reconcile_converges}

module _ {C : Client} (S : Server C) where
  open S use {objects}

  abbrev after : BackupTask → C.World → C.World
  after task w = (reconcile C (key_of task.meta) w).1

  -- The task as it stands in the cluster once it was reconciled.
  abbrev with_finalizer : BackupTask → BackupTask
  with_finalizer task = with_finalizers task (guarded_finalizers C task.meta.finalizers)

  -- In a cluster whose calls succeed, reconciling a task that is not being deleted again changes no
  -- object.
  pub reconcile_again :
      (task : BackupTask) (config : ConfigMap) (w : C.World)
      → IsHeld C task (objects w)
      → create_target_config_map C task ≡ ok config
      → objects (reconcile C (key_of task.meta) (reconcile C (key_of task.meta) w).1).1
        ≡ objects (reconcile C (key_of task.meta) w).1
  reconcile_again task config w h made =
      let task' = with_finalizer task in
      let first = reconcile_converges S task config w h made in
      let held : (objects (after task w)).tasks (key_of task.meta) ≡ some (declared task') =
        ap (λ o. o.tasks (key_of task.meta)) first
        ∙ put_key_self (key_of task.meta) (some (guarded C (declared task))) (objects w).tasks in
      reconcile_converges S task' config (after task w) (record { held = held; kept = h.kept })
        (create_target_config_map-same C task' task refl refl refl ∙ made)
      ∙ converge-same C task' task config.contents (objects (after task w)) (record {
        key = refl;
        uid = refl;
        spec = refl;
        guard = guarded_twice C S.contains_added (declared task);
      })
      ∙ ap (converge C task config.contents) first
      ∙ converge_twice C task config.contents (objects w)
      ∙ sym first

  reconcile-IsHeld :
      (a b : BackupTask) (config : ConfigMap) (w : C.World)
      → IsHeld C a (objects w)
      → create_target_config_map C a ≡ ok config
      → IsHeld C b (objects w)
      → key_of a.meta ≢ key_of b.meta
      → IsHeld C b (objects (after a w))
  reconcile-IsHeld a b config w ha made hb other = record {
    held =
        ap (λ o. o.tasks (key_of b.meta)) (reconcile_converges S a config w ha made)
        ∙ put_key_ne (key_of a.meta) (key_of b.meta) (some (guarded C (declared a)))
            (objects w).tasks other
        ∙ hb.held;
    kept = hb.kept;
  }

  -- In a cluster whose calls succeed, two tasks that are not being deleted can be reconciled in either
  -- order: the objects are the same afterwards.
  pub reconcile_comm :
      (a b : BackupTask) (x y : ConfigMap) (w : C.World)
      → IsHeld C a (objects w)
      → IsHeld C b (objects w)
      → create_target_config_map C a ≡ ok x
      → create_target_config_map C b ≡ ok y
      → key_of a.meta ≢ key_of b.meta
      → objects (reconcile C (key_of a.meta) (reconcile C (key_of b.meta) w).1).1
        ≡ objects (reconcile C (key_of b.meta) (reconcile C (key_of a.meta) w).1).1
  reconcile_comm a b x y w ha hb made_a made_b other =
      let other' = λ (e : key_of b.meta ≡ key_of a.meta). other (sym e) in
      reconcile_converges S a x (after b w) (reconcile-IsHeld b a y w hb made_b ha other') made_a
      ∙ ap (converge C a x.contents) (reconcile_converges S b y w hb made_b)
      ∙ converge_comm C a b x.contents y.contents (objects w) other
      ∙ ap (converge C b y.contents) (sym (reconcile_converges S a x w ha made_a))
      ∙ sym (
          reconcile_converges S b y (after a w) (reconcile-IsHeld a b x w ha made_a hb other)
            made_b)
