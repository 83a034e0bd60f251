-- ===== src/Base/Inversion.antt =====
-- What the outcome of a chain of calls says of its parts.
use Prim.Native.String.{String}
use mathlib.Core.Path.{◌≡◌, refl}
use mathlib.Core.Logic.{◌⊎◌, inl, inr}
use backup_operator.Base.Results.{Error, Outcome, ok, fail, panic, Action, raise, resume, attempt}

module _ {ℓ} {W A : Type ℓ} where
  pub ok_value : {x y : A} {w w' : W} → Path (Outcome A × W) (ok x, w) (ok y, w') → x ≡ y
  ok_value h = cc

  pub ok_world : {x y : A} {w w' : W} → Path (Outcome A × W) (ok x, w) (ok y, w') → w ≡ w'
  ok_world h = cc

  pub fail_not_ok : {e : Error} {x : A} {w w' : W} → ¬ (Path (Outcome A × W) (fail e, w) (ok x, w'))
  fail_not_ok h = cc

  pub panic_not_ok :
      {m : String} {x : A} {w w' : W} → ¬ (Path (Outcome A × W) (panic m, w) (ok x, w'))
  panic_not_ok h = cc

module _ {ℓ} {W A B : Type ℓ} where
  pub record Bound (m : Action W A) (f : A → Action W B) (w : W) (b : B) (w' : W) : Type ℓ where
    pub value : A
    pub middle : W
    pub first : m w ≡ (ok value, middle)
    pub second : f value middle ≡ (ok b, w')

  Bound-resume :
      (m : Action W A) (f : A → Action W B) (w w' : W) (b : B) (r : Outcome A × W)
      → m w ≡ r
      → resume r f raise ≡ (ok b, w')
      → Bound m f w b w'
  Bound-resume m f w w' b (ok a, v) e h = record { value = a; middle = v; first = e; second = h }
  Bound-resume m f w w' b (fail x, v) e h = cc
  Bound-resume m f w w' b (panic x, v) e h = cc

  -- A chain that returns a value went through a value of its first call.
  pub bound :
      (m : Action W A) (f : A → Action W B) {w w' : W} {b : B}
      → attempt m f raise w ≡ (ok b, w')
      → Bound m f w b w'
  bound m f {w} {w'} {b} h = Bound-resume m f w w' b (m w) refl h

  pub record Caught (m : Action W A) (h : Error → Action W B) (w : W) (b : B) (w' : W)
      : Type ℓ where
    pub error : Error
    pub middle : W
    pub first : m w ≡ (fail error, middle)
    pub second : h error middle ≡ (ok b, w')

  Caught-resume :
      (m : Action W A) (f : A → Action W B) (h : Error → Action W B) (w w' : W) (b : B)
      (r : Outcome A × W)
      → m w ≡ r
      → resume r f h ≡ (ok b, w')
      → Bound m f w b w' ⊎ Caught m h w b w'
  Caught-resume m f h w w' b (ok a, v) e q =
      inl (record { value = a; middle = v; first = e; second = q })
  Caught-resume m f h w w' b (fail x, v) e q =
      inr (record { error = x; middle = v; first = e; second = q })
  Caught-resume m f h w w' b (panic x, v) e q = cc

  -- A call with a handler that returns a value took one of the two ways.
  pub caught :
      (m : Action W A) (f : A → Action W B) (h : Error → Action W B) {w w' : W} {b : B}
      → attempt m f h w ≡ (ok b, w')
      → Bound m f w b w' ⊎ Caught m h w b w'
  caught m f h {w} {w'} {b} q = Caught-resume m f h w w' b (m w) refl q

  -- A call whose outcome is known.
  pub resume_ok :
      (o : Outcome A × W) {x : A} (f : A → Action W B) (h : Error → Action W B)
      → o.0 ≡ ok x
      → resume o f h ≡ f x o.1
  resume_ok (ok y, w) f h e = cc
  resume_ok (fail y, w) f h e = cc
  resume_ok (panic y, w) f h e = cc

  pub resume_fail :
      (o : Outcome A × W) {x : Error} (f : A → Action W B) (h : Error → Action W B)
      → o.0 ≡ fail x
      → resume o f h ≡ h x o.1
  resume_fail (ok y, w) f h e = cc
  resume_fail (fail y, w) f h e = cc
  resume_fail (panic y, w) f h e = cc
