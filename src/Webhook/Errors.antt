-- ===== src/Webhook/Errors.antt =====
-- field.Path and field.Error of apimachinery, as the validator builds them, and the answers of an
-- admission webhook.
use mathlib.Core.List.{append-eq-nil_iff}
use backup_operator.Base.{
  ℕ, ℤ, ◌≡◌, refl, ◌≢◌, ◌↔◌, String, Bool, true, false, Option, none, some, List, [], ◌∷◌, ◌++◌,
  arith, is_empty, eq_iff,
}

pub data Segment : Type 0 where
  key : String → Segment
  index : ℕ → Segment

-- `field.NewPath("spec", "targets").Index(i).Child("name")`, from the root.
abbrev pub FieldPath : Type 0
FieldPath = List Segment

abbrev pub child : FieldPath → String → FieldPath
child path name = path ++ key name ∷ []

abbrev pub at_index : FieldPath → ℕ → FieldPath
at_index path i = path ++ index i ∷ []

pub data BadValue : Type 0 where
  text : String → BadValue
  number : ℤ → BadValue

pub data FieldError : Type 0 where
  required : FieldPath → String → FieldError
  invalid : FieldPath → BadValue → String → FieldError
  forbidden : FieldPath → String → FieldError

-- `apierrors.NewInvalid(schema.GroupKind{…}, name, errs)` and `apierrors.NewBadRequest(…)`.
pub data AdmissionError : Type 0 where
  invalid_object : (group : String) → (name : String) → List FieldError → AdmissionError
  bad_request : String → AdmissionError

-- `if test { allErrs = append(allErrs, e) }`, as what it appends.
abbrev pub report : Bool → FieldError → List FieldError
report true e = e ∷ []
report false e = []

-- `if text == "" { allErrs = append(allErrs, field.Required(path, detail)) }`
abbrev pub require_text : String → FieldPath → String → List FieldError
require_text s path detail = report (is_empty s) (required path detail)

abbrev pub is_nil {ℓ} : {A : Type ℓ} → List A → Bool
is_nil [] = true
is_nil (x ∷ xs) = false

-- The value of a pointer is there and satisfies `P`.
abbrev pub Given {ℓ} : {A : Type ℓ} → (A → Type 0) → Option A → Type 0
Given P none = ⊥
Given P (some a) = P a

abbrev pub IsNonempty : String → Type 0
IsNonempty s = ◌≢◌ {A = String} s ""

-- What a required text reports is nothing exactly when it is there.
pub accept_text :
    (s : String) (path : FieldPath) (detail : String)
    → (require_text s path detail ≡ []) ↔ IsNonempty s
accept_text s path detail = (λ h e. ground (arith, eq_iff s ""), λ h. ground (arith, eq_iff s ""))

pub accept_both :
    {xs ys : List FieldError} {P Q : Type 0}
    → (xs ≡ []) ↔ P
    → (ys ≡ []) ↔ Q
    → (xs ++ ys ≡ []) ↔ (P × Q)
accept_both p q = (
  λ e. let (a, b) = append-eq-nil_iff.0 e in (p.0 a, q.0 b),
  λ h. append-eq-nil_iff.1 (p.1 h.0, q.1 h.1),
)

-- What a test reports is nothing exactly when it fails.
pub accept_report : (b : Bool) (e : FieldError) → (report b e ≡ []) ↔ (b ≡ false)
accept_report true e = (λ h. cc, λ h. cc)
accept_report false e = (λ h. refl, λ h. refl)
