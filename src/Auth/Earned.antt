-- ===== src/Auth/Earned.antt =====
-- What a login of internal/auth/siwe.go that succeeded has done: the message, its signature and the two
-- replies of the hub.
use worldland_sdk.Base.{
  ℕ, zero, suc, ◌+◌, ◌≡◌, refl, ◌∙◌, String, Option, none, some, List, [], ◌∷◌, ltb, if◌then◌else◌,
  ◌==◌, ℕ-eq, nat_eq_iff, Bool-cases, ap, inl, inr, arith,
}
use worldland_sdk.Go.Errors.{Result, ok, err, continue}
use worldland_sdk.Go.Machine.{Machine, perform}
use worldland_sdk.Auth.{
  Libraries, SiweClient, HttpReply, get_nonce, sign_message, login_with_signature, adjust_at,
  decoded, domain_of,
}
use Prim.Native.String.{len}
use worldland_sdk.Go.Strconv.{itoa}
use worldland_sdk.Container.{◌<>◌}

-- A list at a position.
abbrev pub nth : ℕ → List ℕ → Option ℕ
nth i [] = none
nth zero (v ∷ bytes) = some v
nth (suc i) (v ∷ bytes) = nth i bytes

abbrev pub recovered : Option ℕ → Option ℕ
recovered none = none
recovered (some v) = some (if ltb v 27 then v + 27 else v)

-- Of the signature only the recovery byte changes: 27 is added to it if it is less than 27.
pub nth-adjust_at :
    (k i : ℕ) (bytes : List ℕ)
    → nth i (adjust_at k bytes) ≡ (if i == k then recovered (nth i bytes) else nth i bytes)
unfolding adjust_at
nth-adjust_at k i [] = ground arith
nth-adjust_at zero zero (v ∷ bytes) = refl
nth-adjust_at zero (suc i) (v ∷ bytes) = ground arith
nth-adjust_at (suc k) zero (v ∷ bytes) = ground arith
nth-adjust_at (suc k) (suc i) (v ∷ bytes) = nth-adjust_at k i bytes ∙ ground arith

module _ {W K : Type 0} (libs : Libraries W K) where
  abbrev pub at : SiweClient W K → Machine W → SiweClient W K
  at c m = record c { machine = m }

  -- The message of EIP-4361 that names the host, the wallet, the hub, the nonce and the instant.
  abbrev pub siwe_text : String → SiweClient W K → Machine W → String
  siwe_text nonce c m =
      domain_of c.domain c.hub_url
      <> " wants you to sign in with your Ethereum account:\n"
      <> c.address
      <> "\n\nSign in to Worldland GPU Rental Platform as Provider\n\nURI: "
      <> c.hub_url
      <> "\nVersion: 1\nChain ID: 56\nNonce: "
      <> nonce
      <> "\nIssued At: "
      <> libs.rfc3339 m.clock

  -- A reply with status 200 whose body means `a`.
  abbrev pub Means :
      {A : Type 0} → (String → Result A) → A → Machine W → Result HttpReply × Machine W → Type 0
  Means decode a m x =
      (reply : HttpReply) × (x ≡ (ok reply, m)) × (reply.status ≡ 200) × (decode reply.body ≡ ok a)

  -- What a login that succeeded has done: the hub gave the nonce, the key signed the message with its
  -- prefix, the recovery byte of the signature was made 27 or more, and the hub gave the token for it.
  pub record Earned (c : SiweClient W K) (nonce signature token : String) (m m' : Machine W)
      : Type 0 where
    pub asked :
        Means libs.decode_nonce nonce m
          (perform (libs.get (c.hub_url <> "/api/v1/auth/nonce")) c.machine)
    pub signed : List ℕ
    pub adjusted : List ℕ
    pub by_key :
        let message = siwe_text nonce c m in
        libs.sign
          (libs.keccak ("\u{19}Ethereum Signed Message:\n" <> itoa (len message) <> message))
          c.private_key
        ≡ ok signed
    pub recovers :
        (i : ℕ) → nth i adjusted ≡ (if i == 64 then recovered (nth i signed) else nth i signed)
    pub in_hex : signature ≡ "0x" <> libs.hex_encode adjusted
    pub posted : Means libs.decode_token token m' (
        perform
          (libs.post
            (c.hub_url <> "/api/v1/auth/login")
            (libs.encode_login (siwe_text nonce c m) signature))
          m)

  meant :
      {A : Type 0} (message : String) (decode : String → Result A) (a : A) (c : SiweClient W K)
      (m : Machine W) (x : Result HttpReply × Machine W)
      → continue (decoded libs message decode) (x.0, at c x.1) ≡ (ok a, at c m)
      → Means decode a m x
  meant message decode a c m (err e, n) h = absurd cc
  meant message decode a c m (ok reply, n) h = elim (Bool-cases (reply.status == 200)) [
    | inr e ↦ absurd (ground (arith, ap (λ y. y.0) h, e))
    | inl e ↦ (
      reply,
      ap (λ (n' : Machine W). (ok reply, n')) (ap (λ y. y.1.machine) h),
      (nat_eq_iff reply.status 200).0 e,
      ap (λ y. y.0) (rw e at h),
    )
  ]

  get_nonce-meant :
      (nonce : String) (c : SiweClient W K) (m : Machine W)
      → get_nonce libs c ≡ (ok nonce, at c m)
      → Means libs.decode_nonce nonce m
          (perform (libs.get (c.hub_url <> "/api/v1/auth/nonce")) c.machine)
  unfolding get_nonce
  get_nonce-meant nonce c m h = meant "nonce request failed" libs.decode_nonce nonce c m _ h

  posted-meant :
      (message signature token : String) (c : SiweClient W K) (m m' : Machine W)
      → login_with_signature libs message signature (at c m) ≡ (ok token, at c m')
      → Means libs.decode_token token m' (
          perform
            (libs.post (c.hub_url <> "/api/v1/auth/login") (libs.encode_login message signature))
            m)
  unfolding login_with_signature
  posted-meant message signature token c m m' h =
      meant "login failed" libs.decode_token token (at c m) m' _ h

  sign_message-signed :
      (message signature : String) (c : SiweClient W K)
      → sign_message libs message c ≡ ok signature
      → (signed : List ℕ) × (libs.sign
            (libs.keccak ("\u{19}Ethereum Signed Message:\n" <> itoa (len message) <> message))
            c.private_key
          ≡ ok signed)
        × (signature ≡ "0x" <> libs.hex_encode (adjust_at 64 signed))
  unfolding sign_message
  sign_message-signed message signature c h = go _ refl h
    where
      go :
          (x : Result (List ℕ))
          → libs.sign
              (libs.keccak ("\u{19}Ethereum Signed Message:\n" <> itoa (len message) <> message))
              c.private_key
            ≡ x
          → (elim x [
            | err e ↦ err e
            | ok bytes ↦ ok ("0x" <> libs.hex_encode (adjust_at 64 bytes))
          ])
            ≡ ok signature
          → (signed : List ℕ) × (libs.sign
                (libs.keccak ("\u{19}Ethereum Signed Message:\n" <> itoa (len message) <> message))
                c.private_key
              ≡ ok signed)
            × (signature ≡ "0x" <> libs.hex_encode (adjust_at 64 signed))
      go (err e) said h = absurd cc
      go (ok signed) said h = (signed, said, ground (arith, h))

  pub earned :
      (c : SiweClient W K) (nonce signature token : String) (m m' : Machine W)
      → get_nonce libs c ≡ (ok nonce, at c m)
      → sign_message libs (siwe_text nonce c m) (at c m) ≡ ok signature
      → login_with_signature libs (siwe_text nonce c m) signature (at c m) ≡ (ok token, at c m')
      → Earned c nonce signature token m m'
  earned c nonce signature token m m' a s p =
      let (signed, by_key, hex) = sign_message-signed (siwe_text nonce c m) signature (at c m) s in
      record {
        asked = get_nonce-meant nonce c m a;
        signed = signed;
        adjusted = adjust_at 64 signed;
        by_key = by_key;
        recovers = λ i. nth-adjust_at 64 i signed;
        in_hex = hex;
        posted = posted-meant (siwe_text nonce c m) signature token c m m' p;
      }
