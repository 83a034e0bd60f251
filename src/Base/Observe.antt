-- ===== src/Base/Observe.antt =====
-- Calls that leave a part of the world as it is.

use mathlib.Core.Path.{◌≡◌, refl, ◌∙◌}
use mathlib.Core.Bool.{Bool, true, false}
use backup_operator.Base.Tests.{if◌then◌else◌}
use backup_operator.Base.Results.{Error, Outcome, ok, fail, panic, Action, raise, resume, attempt}

module _ {ℓ} {W X : Type ℓ} (see : W → X) where
  pub record Keeps {A : Type ℓ} (a : Action W A) : Type ℓ where
    pub keeps : (w : W) → see (a w).1 ≡ see w

  pub resume-Keeps :
      {A B : Type ℓ} (o : Outcome A × W) (x : X) (f : A → Action W B) (h : Error → Action W B)
      → see o.1 ≡ x
      → ((a : A) → Keeps (f a))
      → ((e : Error) → Keeps (h e))
      → see (resume o f h).1 ≡ x
  resume-Keeps (ok a, w) x f h same good bad = (good a).keeps w ∙ same
  resume-Keeps (fail e, w) x f h same good bad = (bad e).keeps w ∙ same
  resume-Keeps (panic m, w) x f h same good bad = same

  pub attempt-Keeps :
      {A B : Type ℓ} {m : Action W A} {f : A → Action W B} {h : Error → Action W B}
      → Keeps m
      → ((a : A) → Keeps (f a))
      → ((e : Error) → Keeps (h e))
      → Keeps (attempt m f h)
  attempt-Keeps {m = m} {f = f} {h = h} first good bad = record {
    keeps = λ w. resume-Keeps (m w) (see w) f h (first.keeps w) good bad;
  }

  -- A result that no call made.
  pub still-Keeps : {A : Type ℓ} (o : Outcome A) → Keeps (λ w. (o, w))
  still-Keeps o = record { keeps = λ w. refl }

  pub bind-Keeps :
      {A B : Type ℓ} {m : Action W A} {f : A → Action W B}
      → Keeps m
      → ((a : A) → Keeps (f a))
      → Keeps (attempt m f raise)
  bind-Keeps first good = attempt-Keeps first good (λ e. still-Keeps (fail e))

  pub if-Keeps :
      {A : Type ℓ} (test : Bool) {a b : Action W A}
      → Keeps a
      → Keeps b
      → Keeps (if test then a else b)
  if-Keeps true first second = first
  if-Keeps false first second = second
