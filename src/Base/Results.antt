-- ===== src/Base/Results.antt =====
-- Go errors and panics as values, and the state-passing monad of code that talks to the API server.
use Prim.Native.String.{String}
use mathlib.Core.Bool.{Bool, true, false}

-- The `metav1.StatusReason` of an API error, as far as the operator looks at it.
pub data Reason : Type 0 where
  not_found already_exists other_reason : Reason

-- `api` is an error of the API server or of its client, `wrapped` is `fmt.Errorf("…: %w", err)`,
-- `message` any other error.
pub data Error : Type 0 where
  api : Reason → String → Error
  wrapped : String → Error → Error
  message : String → Error

-- `errors.IsNotFound` and `errors.IsAlreadyExists`, which look through `%w`.
abbrev pub is_not_found : Error → Bool
is_not_found (api not_found m) = true
is_not_found (api already_exists m) = false
is_not_found (api other_reason m) = false
is_not_found (wrapped m e) = is_not_found e
is_not_found (message m) = false

abbrev pub is_already_exists : Error → Bool
is_already_exists (api not_found m) = false
is_already_exists (api already_exists m) = true
is_already_exists (api other_reason m) = false
is_already_exists (wrapped m e) = is_already_exists e
is_already_exists (message m) = false

-- A Go call returns a value, returns an error, or panics.
pub data Outcome {ℓ} (A : Type ℓ) : Type ℓ where
  ok : A → Outcome A
  fail : Error → Outcome A
  panic : String → Outcome A

-- A call in a world `W`: the API server, the clock and whatever else the code can observe.
abbrev pub Action {ℓ} : Type ℓ → Type ℓ → Type ℓ
Action W A = W → Outcome A × W

module _ {ℓ} {W : Type ℓ} where
  abbrev pub pure : {A : Type ℓ} → A → Action W A
  pure a w = (ok a, w)

  abbrev pub raise : {A : Type ℓ} → Error → Action W A
  raise e w = (fail e, w)

  abbrev pub crash : {A : Type ℓ} → String → Action W A
  crash m w = (panic m, w)

  abbrev pub lift : {A : Type ℓ} → Outcome A → Action W A
  lift r w = (r, w)

  -- What follows a call, by its outcome; a panic is passed on.
  abbrev pub resume :
      {A B : Type ℓ} → Outcome A × W → (A → Action W B) → (Error → Action W B) → Outcome B × W
  resume (ok a, w) f h = f a w
  resume (fail e, w) f h = h e w
  resume (panic m, w) f h = (panic m, w)

  -- `if err := m; err != nil { h(err) }`, and otherwise the code that follows.
  abbrev pub attempt :
      {A B : Type ℓ} → Action W A → (A → Action W B) → (Error → Action W B) → Action W B
  attempt m f h w = resume (m w) f h

  infixl 5 ◌>>=◌ ◌>>◌
  abbrev pub ◌>>=◌ : {A B : Type ℓ} → Action W A → (A → Action W B) → Action W B
  ◌>>=◌ m f = attempt m f raise

  abbrev pub ◌>>◌ : {A B : Type ℓ} → Action W A → Action W B → Action W B
  m >> k = attempt m (λ _. k) raise
