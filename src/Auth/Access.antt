-- ===== src/Auth/Access.antt =====
-- What a login of internal/auth/siwe.go permits: `RegisterNode` and `IssueCertificate` after it.
use worldland_sdk.Base.{
  ℕ, ◌≡◌, ◌≢◌, ◌⊎◌, refl, ap, String, ◌==◌, ℕ-eq, String-eq, text_iff, nat_eq_iff, Bool-cases, inl,
  inr, arith,
}
use worldland_sdk.Go.Errors.{GoError, text, Result, ok, err, Act, Result-cases}
use worldland_sdk.Go.Outcome.{IfOk}
use worldland_sdk.Go.Machine.{perform}
use worldland_sdk.Container.{◌<>◌}
use worldland_sdk.Auth.{
  Libraries, SiweClient, HttpReply, authenticated, registered, decoded, login, register_node,
  issue_certificate,
}
use worldland_sdk.Auth.Login.{LoggedIn, no_nonce, not_signed, refused, logged_in, login-LoggedIn}

module _ {W K : Type 0} (libs : Libraries W K) where
  -- What stands behind a result: a request to the path that bears the token, and its reply.
  pub record Granted {A : Type 0} (path body : String) (accepts : ℕ → Type 0)
      (decode : String → Result A) (c : SiweClient W K) (a : A) : Type 0 where
    pub has_token : c.token ≢ ""
    pub reply : HttpReply
    pub sent : (perform (libs.send (c.hub_url <> path) c.token body) c.machine).0 ≡ ok reply
    pub accepted : accepts reply.status
    pub decodes : decode reply.body ≡ ok a

  -- A request after a login: the login failed, and it is refused and nothing is sent, or the login
  -- succeeded, and it is granted if it has a result.
  pub data Access {A : Type 0} (path body : String) (accepts : ℕ → Type 0)
      (decode : String → Result A) (c : SiweClient W K) (r : Result A × SiweClient W K)
      : Type 0 where
    denied :
        (e : GoError)
        → (login libs c).0 ≡ err e
        → r ≡ (err (text "not authenticated - call Login() first"), (login libs c).1)
        → Access path body accepts decode c r
    permitted :
        (login libs c).0 ≡ ok tt
        → IfOk (λ a c'. Granted path body accepts decode (login libs c).1 a) r
        → Access path body accepts decode c r

  -- A handler that has a result for accepted replies only.
  abbrev Accepting :
      {A : Type 0}
      → (ℕ → Type 0)
      → (String → Result A)
      → (HttpReply → Act (SiweClient W K) A)
      → Type 0
  Accepting accepts decode handle =
      (reply : HttpReply) (c : SiweClient W K)
      → IfOk (λ a c'. accepts reply.status × (decode reply.body ≡ ok a)) (handle reply c)

  module _ {A : Type 0} (path body : String) (accepts : ℕ → Type 0) (decode : String → Result A)
      (handle : HttpReply → Act (SiweClient W K) A) (h : Accepting accepts decode handle) where
    handled :
        (c : SiweClient W K) (reply : HttpReply) (x : Result A × SiweClient W K)
        → c.token ≢ ""
        → (perform (libs.send (c.hub_url <> path) c.token body) c.machine).0 ≡ ok reply
        → IfOk (λ a c'. accepts reply.status × (decode reply.body ≡ ok a)) x
        → IfOk (λ a c'. Granted path body accepts decode c a) x
    handled c reply (err e, c') token sent good = tt
    handled c reply (ok a, c') token sent good = record {
      has_token = token;
      reply = reply;
      sent = sent;
      accepted = good.0;
      decodes = good.1;
    }

    authenticated-Granted :
        (c : SiweClient W K)
        → IfOk
            (λ a c'. Granted path body accepts decode c a)
            (authenticated libs path body handle c)
    authenticated-Granted c = elim (Bool-cases (c.token == "")) [
      | inl e ↦ rw e tt
      | inr e ↦ rw e (elim (Result-cases (libs.new_request (c.hub_url <> path))) [
        | inr (x, bad) ↦ rw bad tt
        | inl (done, good) ↦
            rw good
              (elim (Result-cases
                (perform (libs.send (c.hub_url <> path) c.token body) c.machine).0) [
                  | inr (x, lost) ↦ rw lost tt
                  | inl (reply, sent) ↦ rw sent (
                      handled c reply _ (λ empty. ground (arith, text_iff c.token "")) sent
                        (h reply _))
                ])
      ])
    ]

    authenticated-Access :
        (c : SiweClient W K)
        → c.token ≡ ""
        → LoggedIn libs c (login libs c)
        → Access path body accepts decode c (authenticated libs path body handle (login libs c).1)
    authenticated-Access c fresh l = elim l [
      | no_nonce e m a r ↦ denied _ (ap (λ x. x.0) r) (rw (r, fresh) refl)
      | not_signed nonce e m a s r ↦ denied _ (ap (λ x. x.0) r) (rw (r, fresh) refl)
      | refused nonce signature e m m' a s p r ↦ denied _ (ap (λ x. x.0) r) (rw (r, fresh) refl)
      | logged_in nonce signature token m m' earned r ↦
          permitted (ap (λ x. x.0) r) (authenticated-Granted (login libs c).1)
    ]

  decoding :
      {A : Type 0} {S : Type 0} (accepted : S) (decode : String → Result A) (body : String)
      (c : SiweClient W K)
      → IfOk (λ a c'. S × (decode body ≡ ok a)) (decode body, c)
  decoding accepted decode body c = elim (Result-cases (decode body)) [
    | inl (a, good) ↦ rw good (accepted, good)
    | inr (x, bad) ↦ rw bad tt
  ]

  registered-Accepting :
      Accepting (λ s. (s ≡ 201) ⊎ (s ≡ 200)) libs.decode_node_id (registered libs)
  registered-Accepting reply c = elim (Bool-cases (reply.status == 201)) [
    | inl e ↦ rw e (
        decoding {S = (reply.status ≡ 201) ⊎ (reply.status ≡ 200)}
          (inl ((nat_eq_iff reply.status 201).0 e)) libs.decode_node_id reply.body c)
    | inr e ↦ elim (Bool-cases (reply.status == 200)) [
      | inl f ↦
          rw (e, f)
            (decoding {S = (reply.status ≡ 201) ⊎ (reply.status ≡ 200)}
              (inr ((nat_eq_iff reply.status 200).0 f)) libs.decode_node_id reply.body c)
      | inr f ↦ rw (e, f) tt
    ]
  ]

  decoded-Accepting :
      {A : Type 0} (message : String) (decode : String → Result A)
      → Accepting (λ s. s ≡ 200) decode (decoded libs message decode)
  decoded-Accepting message decode reply c = elim (Bool-cases (reply.status == 200)) [
    | inl e ↦ rw e (decoding ((nat_eq_iff reply.status 200).0 e) decode reply.body c)
    | inr e ↦ rw e tt
  ]

  -- For a client that has no token yet, a registration and a request for a certificate after a login
  -- that failed are both refused, nothing is sent and the client stays as it is. After a login that
  -- succeeded, the registration gives an id only if the token is not empty and a request that bears
  -- it got a reply with status 201 or 200 that names this id, and the certificate is given only if
  -- the token is not empty and a request that bears it got a reply with status 200 that contains it.
  pub requests-Access :
      (c : SiweClient W K) (gpu_uuid gpu_type : String) (memory_gb : ℕ) (price_per_sec : String)
      → c.token ≡ ""
      → Access "/api/v1/nodes"
          (libs.encode_node gpu_uuid gpu_type memory_gb price_per_sec)
          (λ s. (s ≡ 201) ⊎ (s ≡ 200))
          libs.decode_node_id
          c
          (register_node libs gpu_uuid gpu_type memory_gb price_per_sec (login libs c).1)
        × Access "/api/v1/certs/bootstrap" ""
            (λ s. s ≡ 200)
            libs.decode_bundle
            c
            (issue_certificate libs (login libs c).1)
  unfolding register_node issue_certificate
  requests-Access c gpu_uuid gpu_type memory_gb price_per_sec fresh =
      let l = login-LoggedIn libs c in
      (
        authenticated-Access _ _ _ _ _ registered-Accepting c fresh l,
        authenticated-Access _ _ _ _ _ (decoded-Accepting _ libs.decode_bundle) c fresh l,
      )
