-- ===== src/Go/Errors.antt =====
-- Go's error values: sentinels, texts from outside the program, and `fmt.Errorf("…: %w", err)`.
-- A function that returns `(T, error)` returns a `Result T` here.
use Prim.Native.String
use worldland_sdk.Base.{String, Bool, true, false, ◌≡◌, refl, ◌⊎◌, inl, inr}

-- internal/rental/executor.go, internal/port/manager.go and the standard library's context errors.
pub data Sentinel : Type 0 where
  session_already_active session_not_found container_not_healthy : Sentinel
  no_available_ports port_not_allocated : Sentinel
  deadline_exceeded canceled : Sentinel

pub Sentinel-discrete : Discrete Sentinel
Sentinel-discrete = hlevel

pub data GoError : Type 0 where
  sentinel : Sentinel → GoError
  text : String → GoError
  wrap : String → GoError → GoError

abbrev pub same_sentinel : Sentinel → Sentinel → Bool
same_sentinel session_already_active session_already_active = true
same_sentinel session_not_found session_not_found = true
same_sentinel container_not_healthy container_not_healthy = true
same_sentinel no_available_ports no_available_ports = true
same_sentinel port_not_allocated port_not_allocated = true
same_sentinel deadline_exceeded deadline_exceeded = true
same_sentinel canceled canceled = true
same_sentinel _ _ = false

-- errors.Is: the chain of wrapped errors is searched.
abbrev pub errors_is : GoError → Sentinel → Bool
errors_is (sentinel s) t = same_sentinel s t
errors_is (text m) t = false
errors_is (wrap m e) t = errors_is e t

pub data Result {ℓ} (A : Type ℓ) : Type ℓ where
  ok : A → Result A
  err : GoError → Result A

-- Actions on a state that may fail: what was written before a failure stays written.
abbrev pub Act {ℓ} : Type ℓ → Type ℓ → Type ℓ
Act S A = S → Result A × S

module _ {ℓ} {S A B : Type ℓ} where
  abbrev pub continue : (A → Act S B) → Result A × S → Result B × S
  continue f (ok a, s) = f a s
  continue f (err e, s) = (err e, s)

  infixl 5 ◌>>=◌ ◌>>◌
  abbrev pub ◌>>=◌ : Act S A → (A → Act S B) → Act S B
  ◌>>=◌ m f s = continue f (m s)

  abbrev pub ◌>>◌ : Act S A → Act S B → Act S B
  ◌>>◌ m k s = continue (λ _. k) (m s)

abbrev pub pure {ℓ} : {S A : Type ℓ} → A → Act S A
pure a s = (ok a, s)

abbrev pub fail {ℓ} : {S A : Type ℓ} → GoError → Act S A
fail e s = (err e, s)

abbrev pub is_ok {ℓ} : {A : Type ℓ} → Result A → Bool
is_ok (ok a) = true
is_ok (err e) = false

-- `if err := …; err != nil { return fmt.Errorf("message: %w", err) }`
abbrev pub wrapping {ℓ} : {S A : Type ℓ} → String → Result A × S → Result A × S
wrapping message (ok a, s) = (ok a, s)
wrapping message (err e, s) = (err (wrap message e), s)

-- `_ = …`
abbrev pub ignoring {ℓ} : {S A : Type ℓ} → Result A × S → S
ignoring (r, s) = s

pub Result-cases {ℓ} :
    {A : Type ℓ} (r : Result A) → ((a : A) × (r ≡ ok a)) ⊎ ((e : GoError) × (r ≡ err e))
Result-cases (ok a) = inl (a, refl)
Result-cases (err e) = inr (e, refl)

abbrev pub sentinel_text : Sentinel → String
sentinel_text session_already_active = "session already has active rental"
sentinel_text session_not_found = "rental session not found"
sentinel_text container_not_healthy = "container failed health check within timeout"
sentinel_text no_available_ports = "no available ports in range"
sentinel_text port_not_allocated = "port not allocated"
sentinel_text deadline_exceeded = "context deadline exceeded"
sentinel_text canceled = "context canceled"

-- err.Error()
abbrev pub error_text : GoError → String
error_text (sentinel s) = sentinel_text s
error_text (text m) = m
error_text (wrap m e) = String.◌++◌ m (String.◌++◌ ": " (error_text e))
