-- ===== src/Webhook/Admission/Laws.antt =====
-- Defaulting and validation together, and the handlers that are registered.
use mathlib.Core.Option
use backup_operator.Base.{
  ◌≡◌, refl, ap, inl, inr, ◌↔◌, ◌⊎◌, String, Bool, Bool-cases, true, false, is_empty, Option, none,
  some, arith, ◌==◌, eq_iff,
}
use backup_operator.Api.{EncryptionSpec, PodTemplateSpec, BackupTask}
use backup_operator.Webhook.Errors.{IsNonempty}
use backup_operator.Webhook.Storage.Accepts.{HasKey}
use backup_operator.Webhook.Validate.Accepts.{IsAcceptable, validate_backup_task_iff}
use backup_operator.Webhook.Admission.{
  Object, task_object, record_object, other_object, default_encryption, default, validate_create,
  validate_update,
}

default_encryption_idem :
    (e : EncryptionSpec) → default_encryption (default_encryption e) ≡ default_encryption e
unfolding default_encryption
default_encryption_idem e = ground (arith, eq_iff e.algorithm "")

-- What Default makes of an encryption: what the user set stays, and what is missing is filled in.
pub record IsDefaultOf (e d : EncryptionSpec) : Type 0 where
  pub enabled : d.enabled ≡ e.enabled
  pub key_kept : d.key_secret_ref ≡ e.key_secret_ref
  pub algorithm_kept : IsNonempty e.algorithm ⊎ (e.enabled ≡ false) → d.algorithm ≡ e.algorithm
  pub algorithm_filled : e.algorithm ≡ "" → e.enabled ≡ true → d.algorithm ≡ "aes-256-gcm"
  pub order_kept :
      (b : Bool) → e.encrypt_after_compress ≡ some b → d.encrypt_after_compress ≡ some b
  pub order_filled : e.encrypt_after_compress ≡ none → d.encrypt_after_compress ≡ some true

-- The same of a task; nothing but the pod template and the encryption changes.
pub record IsDefaulted (t d : BackupTask) : Type 0 where
  pub template_kept :
      (p : PodTemplateSpec) → t.spec.pod_template ≡ some p → d.spec.pod_template ≡ some p
  pub template_filled :
      t.spec.pod_template ≡ none
      → d.spec.pod_template ≡ some (record { metadata = none; spec = none })
  pub unencrypted : t.spec.encryption ≡ none → d.spec.encryption ≡ none
  pub encrypted :
      (e : EncryptionSpec)
      → t.spec.encryption ≡ some e
      → (x : EncryptionSpec) × (d.spec.encryption ≡ some x) × IsDefaultOf e x
  pub rest :
      record d {
        spec = record (d.spec) {
          pod_template = t.spec.pod_template;
          encryption = t.spec.encryption;
        };
      }
      ≡ t

kept_algorithm :
    (e : EncryptionSpec)
    → IsNonempty e.algorithm ⊎ (e.enabled ≡ false)
    → (default_encryption e).algorithm ≡ e.algorithm
unfolding default_encryption
kept_algorithm e (inl given) = elim (Bool-cases (is_empty e.algorithm)) [
  | inl missing ↦ absurd (given ((eq_iff e.algorithm "").0 missing))
  | inr there ↦ ground arith
]
kept_algorithm e (inr off) = rw off refl

default_encryption-IsDefaultOf : (e : EncryptionSpec) → IsDefaultOf e (default_encryption e)
unfolding default_encryption
default_encryption-IsDefaultOf e = record {
  enabled = refl;
  key_kept = refl;
  algorithm_kept = kept_algorithm e;
  algorithm_filled = λ h on. ground (arith, eq_iff e.algorithm "");
  order_kept = λ b h. ground arith;
  order_filled = λ h. ground arith;
}

default-IsDefaulted : (t : BackupTask) → IsDefaulted t (default t)
unfolding default
default-IsDefaulted t = record {
  template_kept = λ p h. ground arith;
  template_filled = λ h. ground arith;
  unencrypted = λ h. rw h refl;
  encrypted = λ e h. (default_encryption e, rw h refl, default_encryption-IsDefaultOf e);
  rest = refl;
}

map_default_idem :
    (o : Option EncryptionSpec)
    → Option.map default_encryption (Option.map default_encryption o)
      ≡ Option.map default_encryption o
map_default_idem none = refl
map_default_idem (some e) = ap some (default_encryption_idem e)

default_idem : (t : BackupTask) → default (default t) ≡ default t
unfolding default
default_idem t = ground (arith, map_default_idem t.spec.encryption)

-- Default keeps what the user set and fills in what is missing: an empty pod template, the algorithm
-- aes-256-gcm of an enabled encryption without one, and encryption after compression. It changes
-- nothing else, and on its own result it changes nothing.
pub default_lem : (t : BackupTask) → IsDefaulted t (default t) × (default (default t) ≡ default t)
default_lem t = (default-IsDefaulted t, default_idem t)

HasKey-default : (e : Option EncryptionSpec) → HasKey (Option.map default_encryption e) ↔ HasKey e
unfolding default_encryption
HasKey-default none = (λ h. tt, λ h. tt)
HasKey-default (some e) = (λ h. h, λ h. h)

default-IsAcceptable : (t : BackupTask) → IsAcceptable (default t) ↔ IsAcceptable t
unfolding default
default-IsAcceptable t =
    let (to, from) = HasKey-default t.spec.encryption in
    (
      λ h. (h.0, (h.1.0, (h.1.1.0, (h.1.1.1.0, to h.1.1.1.1)))),
      λ h. (h.0, (h.1.0, (h.1.1.0, (h.1.1.1.0, from h.1.1.1.1)))),
    )

-- Defaulting a task does not change whether it passes the validation.
pub validate_create-default :
    (t : BackupTask) → ((validate_create (default t)).0 ≡ none) ↔ ((validate_create t).0 ≡ none)
unfolding validate_create
validate_create-default t =
    let (sound, complete) = validate_backup_task_iff t in
    let (sound', complete') = validate_backup_task_iff (default t) in
    let (to, from) = default-IsAcceptable t in
    (λ h. complete (to (sound' h)), λ h. complete' (from (sound h)))

-- The schedule of an object that is a task.
unwrap : Object → String
unwrap (task_object o) = o.spec.schedule
unwrap (record_object r) = ""
unwrap (other_object name) = ""

-- An update is admitted exactly when the old object is a BackupTask with the same schedule and the
-- new task is acceptable.
pub validate_update_iff :
    (old : Object) (t : BackupTask)
    → ((validate_update old t).0 ≡ none) ↔ (
        (o : BackupTask) × (old ≡ task_object o)
        × (t.spec.schedule ≡ o.spec.schedule)
        × IsAcceptable t)
unfolding validate_update unwrap
validate_update_iff (task_object o) t = elim (Bool-cases (t.spec.schedule == o.spec.schedule)) [
  | inl same ↦ rw same (
    λ h. (o, refl, (eq_iff _ _).0 same, (validate_backup_task_iff t).0 h),
    λ h. (validate_backup_task_iff t).1 h.3,
  )
  | inr changed ↦
      rw changed
        (λ h. cc, λ h. ground (arith, eq_iff t.spec.schedule o.spec.schedule, ap unwrap h.1, h.2))
]
validate_update_iff (record_object r) t = (λ h. cc, λ h. cc (h.1))
validate_update_iff (other_object name) t = (λ h. cc, λ h. cc (h.1))
