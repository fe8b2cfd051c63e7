-- ===== src/Auth.antt =====
-- internal/auth/siwe.go: `SIWEClient`, the login with an Ethereum wallet, the registration of the node
-- and the request for its certificate. Keys, hashes, HTTP and the JSON texts are parameters.
pub mod Earned
pub mod Login
pub mod Access
use Prim.Native.String.{len, slice}
use worldland_sdk.Base.{starts_with, get?, find?}
use worldland_sdk.Base.{
  ℕ, zero, suc, ◌+◌, ◌-◌, String, Bool, not, ◌&&◌, Option, none, some, List, [], ◌∷◌, ltb,
  if◌then◌else◌, ◌==◌, ℕ-eq, String-eq,
}
use worldland_sdk.Go.Errors.{GoError, text, wrap, Result, ok, err, Act, ◌>>=◌, ◌>>◌, pure, wrapping}
use worldland_sdk.Go.Machine.{Machine, Outside, perform}
use worldland_sdk.Go.Strconv.{itoa}
use worldland_sdk.Container.{◌<>◌}

pub record CertificateBundle : Type 0 where
  pub certificate : String
  pub private_key : String
  pub ca_certificate : String
  pub expires_at : String
  pub wallet_address : String

-- An HTTP response, whose body was read to its end.
pub record HttpReply : Type 0 where
  pub status : ℕ
  pub body : String

-- net/http, encoding/json, encoding/hex, time and go-ethereum's crypto, as the client uses them. The
-- second argument of `send` is the token of the Authorization header. Bytes are numbers.
pub record Libraries (W K : Type 0) : Type 0 where
  pub get : String → Outside W HttpReply
  pub post : String → String → Outside W HttpReply
  pub new_request : String → Result (Unit {0})
  pub send : String → String → String → Outside W HttpReply
  pub encode_login : String → String → String
  pub encode_node : String → String → ℕ → String → String
  pub decode_nonce : String → Result String
  pub decode_token : String → Result String
  pub decode_node_id : String → Result String
  pub decode_bundle : String → Result CertificateBundle
  pub rfc3339 : ℕ → String
  pub hex_decode : String → Result (List ℕ)
  pub hex_encode : List ℕ → String
  pub to_ecdsa : List ℕ → Result K
  pub address_of : K → String
  pub keccak : String → List ℕ
  pub sign : List ℕ → K → Result (List ℕ)

pub record SiweClient (W K : Type 0) : Type 0 where
  pub machine : Machine W
  pub hub_url : String
  pub domain : String
  pub private_key : K
  pub address : String
  pub token : String

-- strings.TrimPrefix(s, "0x")
abbrev pub trim_0x : String → String
trim_0x s = if starts_with s "0x" then slice s 2 (len s) else s

abbrev without_slash : String → Option String → String
without_slash s none = s
without_slash s (some last) = if last == "/" then slice s 0 (len s - 1) else s

-- strings.TrimSuffix(s, "/")
abbrev pub trim_slash : String → String
trim_slash s = if s == "" then s else without_slash s (get? s (len s - 1) (len s))

-- strings.Split(s, sep)[0]
abbrev pub before : String → String → String
before sep s = elim (find? s sep) [ none ↦ s | some i ↦ slice s 0 i ]

abbrev host_of : String → Option ℕ → String
host_of url none = ""
host_of url (some i) = before "/" (before ":" (before "://" (slice url (i + 3) (len url))))

-- The domain of the message: the configured one, else the host of the hub's URL, else localhost.
unfoldable pub domain_of : String → String → String
domain_of domain url =
    if not (domain == "")
    then domain
    else (let host = host_of url (find? url "://") in
        if not (host == "") then host else "localhost")

-- signature[k] += 27 where it is less than 27
unfoldable pub adjust_at : ℕ → List ℕ → List ℕ
adjust_at k [] = []
adjust_at zero (v ∷ bytes) = (if ltb v 27 then v + 27 else v) ∷ bytes
adjust_at (suc k) (v ∷ bytes) = v ∷ adjust_at k bytes

module _ {W K : Type 0} (libs : Libraries W K) where
  unfoldable pub new_siwe_client_with_domain :
      Machine W → String → String → String → Result (SiweClient W K)
  new_siwe_client_with_domain machine hub_url private_key_hex domain =
      elim (libs.hex_decode (trim_0x private_key_hex)) [
        | err e ↦ err (wrap "invalid private key hex" e)
        | ok bytes ↦ elim (libs.to_ecdsa bytes) [
          | err e ↦ err (wrap "invalid private key" e)
          | ok key ↦ ok (record {
            machine = machine;
            hub_url = trim_slash hub_url;
            domain = domain;
            private_key = key;
            address = libs.address_of key;
            token = "";
          })
        ]
      ]

  unfoldable pub new_siwe_client : Machine W → String → String → Result (SiweClient W K)
  new_siwe_client machine hub_url private_key_hex =
      new_siwe_client_with_domain machine hub_url private_key_hex ""

  abbrev pub get_address : SiweClient W K → String
  get_address c = c.address

  abbrev pub get_token : SiweClient W K → String
  get_token c = c.token

  abbrev pub on_machine : {A : Type 0} → Outside W A → Act (SiweClient W K) A
  on_machine f c = let (r, m) = perform f c.machine in (r, record c { machine = m })

  abbrev failed_request : String → HttpReply → GoError
  failed_request message reply = text (message <> ": " <> itoa reply.status <> " - " <> reply.body)

  -- A reply with status 200, decoded.
  abbrev pub decoded :
      {A : Type 0} → String → (String → Result A) → HttpReply → Act (SiweClient W K) A
  decoded message decode reply c =
      (if reply.status == 200 then decode reply.body else err (failed_request message reply), c)

  unfoldable pub get_nonce : Act (SiweClient W K) String
  get_nonce c =
      (do
        reply ← on_machine (libs.get (c.hub_url <> "/api/v1/auth/nonce"))
        decoded "nonce request failed" libs.decode_nonce reply)
        c

  unfoldable pub create_siwe_message : String → SiweClient W K → String
  create_siwe_message nonce c =
      domain_of c.domain c.hub_url
      <> " wants you to sign in with your Ethereum account:\n"
      <> c.address
      <> "\n\nSign in to Worldland GPU Rental Platform as Provider\n\nURI: "
      <> c.hub_url
      <> "\nVersion: 1\nChain ID: 56\nNonce: "
      <> nonce
      <> "\nIssued At: "
      <> libs.rfc3339 c.machine.clock

  abbrev prefixed : String → String
  prefixed message = "\u{19}Ethereum Signed Message:\n" <> itoa (len message) <> message

  unfoldable pub sign_message : String → SiweClient W K → Result String
  sign_message message c = elim (libs.sign (libs.keccak (prefixed message)) c.private_key) [
    | err e ↦ err e
    | ok signature ↦ ok ("0x" <> libs.hex_encode (adjust_at 64 signature))
  ]

  unfoldable pub login_with_signature : String → String → Act (SiweClient W K) String
  login_with_signature message signature c =
      (do
        reply ←
            on_machine
              (libs.post (c.hub_url <> "/api/v1/auth/login") (libs.encode_login message signature))
        decoded "login failed" libs.decode_token reply)
        c

  abbrev set_token : String → Act (SiweClient W K) (Unit {0})
  set_token token c = (ok tt, record c { token = token })

  unfoldable pub login : Act (SiweClient W K) (Unit {0})
  login c =
      (do
        nonce ← λ n. wrapping "failed to get nonce" (get_nonce n)
        message ← λ n. pure (create_siwe_message nonce n) n
        signature ← λ n. wrapping "failed to sign message" (sign_message message n, n)
        token ← λ n. wrapping "failed to login" (login_with_signature message signature n)
        set_token token)
        c

  -- Status 201 is as good as 200.
  abbrev pub registered : HttpReply → Act (SiweClient W K) String
  registered reply c = (
    if not (reply.status == 201) && not (reply.status == 200)
        then err (failed_request "registration failed" reply)
        else libs.decode_node_id reply.body,
    c,
  )

  -- A request that needs the token: it is refused before anything is sent if there is none.
  abbrev pub authenticated :
      {A : Type 0} → String → String → (HttpReply → Act (SiweClient W K) A) → Act (SiweClient W K) A
  authenticated path body handle c =
      if c.token == ""
      then (err (text "not authenticated - call Login() first"), c)
      else (do
        (λ n. (libs.new_request (c.hub_url <> path), n))
        reply ← on_machine (libs.send (c.hub_url <> path) c.token body)
        handle reply)
          c

  unfoldable pub register_node : String → String → ℕ → String → Act (SiweClient W K) String
  register_node gpu_uuid gpu_type memory_gb price_per_sec =
      authenticated "/api/v1/nodes" (libs.encode_node gpu_uuid gpu_type memory_gb price_per_sec)
        registered

  unfoldable pub issue_certificate : Act (SiweClient W K) CertificateBundle
  issue_certificate =
      authenticated "/api/v1/certs/bootstrap" ""
        (decoded "certificate issuance failed" libs.decode_bundle)
