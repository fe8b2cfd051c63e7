-- ===== src/Auth/Login.antt =====
-- `Login` of internal/auth/siwe.go: when there is a token, and how the signature is made.
use worldland_sdk.Base.{◌≡◌, refl, String, ℕ-eq, inl, inr}
use worldland_sdk.Go.Errors.{GoError, Result, ok, err, wrap, continue, Result-cases}
use worldland_sdk.Go.Machine.{Machine, perform}
use worldland_sdk.Auth.{
  Libraries, SiweClient, HttpReply, get_nonce, create_siwe_message, sign_message,
  login_with_signature, login, decoded,
}
use worldland_sdk.Auth.Earned.{at, siwe_text, Earned, earned}

module _ {W K : Type 0} (libs : Libraries W K) where
  -- The outcomes of a login.
  pub data LoggedIn (c : SiweClient W K) (r : Result (Unit {0}) × SiweClient W K) : Type 0 where
    no_nonce :
        (e : GoError) (m : Machine W)
        → get_nonce libs c ≡ (err e, at libs c m)
        → r ≡ (err (wrap "failed to get nonce" e), at libs c m)
        → LoggedIn c r
    not_signed :
        (nonce : String) (e : GoError) (m : Machine W)
        → get_nonce libs c ≡ (ok nonce, at libs c m)
        → sign_message libs (siwe_text libs nonce c m) (at libs c m) ≡ err e
        → r ≡ (err (wrap "failed to sign message" e), at libs c m)
        → LoggedIn c r
    refused :
        (nonce signature : String) (e : GoError) (m m' : Machine W)
        → get_nonce libs c ≡ (ok nonce, at libs c m)
        → sign_message libs (siwe_text libs nonce c m) (at libs c m) ≡ ok signature
        → login_with_signature libs (siwe_text libs nonce c m) signature (at libs c m)
          ≡ (err e, at libs c m')
        → r ≡ (err (wrap "failed to login" e), at libs c m')
        → LoggedIn c r
    logged_in :
        (nonce signature token : String) (m m' : Machine W)
        → Earned libs c nonce signature token m m'
        → r ≡ (ok tt, record c { machine = m'; token = token })
        → LoggedIn c r

  get_nonce-at :
      (c : SiweClient W K)
      → (r : Result String) × (m : Machine W) × (get_nonce libs c ≡ (r, at libs c m))
  unfolding get_nonce
  get_nonce-at c = go (perform (libs.get _) c.machine)
    where
      go :
          (x : Result HttpReply × Machine W)
          → (r : Result String) × (m : Machine W) × (continue
                (decoded libs "nonce request failed" libs.decode_nonce)
                (x.0, at libs c x.1)
              ≡ (r, at libs c m))
      go (ok reply, m) = (_, m, refl)
      go (err e, m) = (err e, m, refl)

  login_with_signature-at :
      (message signature : String) (c : SiweClient W K)
      → (r : Result String) × (m : Machine W) × (login_with_signature libs message signature c
          ≡ (r, at libs c m))
  unfolding login_with_signature
  login_with_signature-at message signature c = go (perform (libs.post _ _) c.machine)
    where
      go :
          (x : Result HttpReply × Machine W)
          → (r : Result String) × (m : Machine W) × (continue
                (decoded libs "login failed" libs.decode_token)
                (x.0, at libs c x.1)
              ≡ (r, at libs c m))
      go (ok reply, m) = (_, m, refl)
      go (err e, m) = (err e, m, refl)

  -- A login that fails says at which of its three steps, and leaves the token as it was; one that
  -- succeeds leaves the token of the hub's reply with status 200 to the message of EIP-4361 with the
  -- nonce that the hub had given and to its signature by the key of the wallet, in which the recovery
  -- byte is 27 or more.
  pub login-LoggedIn : (c : SiweClient W K) → LoggedIn c (login libs c)
  unfolding login create_siwe_message
  login-LoggedIn c = asked (get_nonce-at c)
    where
      posted :
          (nonce signature : String) (m : Machine W)
          → get_nonce libs c ≡ (ok nonce, at libs c m)
          → sign_message libs (siwe_text libs nonce c m) (at libs c m) ≡ ok signature
          → ((r : Result String) × (m' : Machine W) × (login_with_signature libs
                  (siwe_text libs nonce c m)
                  signature
                  (at libs c m)
                ≡ (r, at libs c m')))
          → LoggedIn c (login libs c)
      posted nonce signature m a s (err e, m', p) =
          rw (a, s, p) (refused nonce signature e m m' a s p refl)
      posted nonce signature m a s (ok token, m', p) =
          rw (a, s, p)
            (logged_in nonce signature token m m' (earned libs c nonce signature token m m' a s p)
              refl)

      asked :
          ((r : Result String) × (m : Machine W) × (get_nonce libs c ≡ (r, at libs c m)))
          → LoggedIn c (login libs c)
      asked (err e, m, a) = rw a (no_nonce e m a refl)
      asked (ok nonce, m, a) =
          let message = siwe_text libs nonce c m in
          elim (Result-cases (sign_message libs message (at libs c m))) [
            | inr (e, s) ↦ rw (a, s) (not_signed nonce e m a s refl)
            | inl (signature, s) ↦
                posted nonce signature m a s
                  (login_with_signature-at message signature (at libs c m))
          ]
