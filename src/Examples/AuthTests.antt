-- ===== src/Examples/AuthTests.antt =====
-- internal/auth/siwe.go with a hub that gives everybody the same nonce and token.
use worldland_sdk.Base.{ℕ, ◌≡◌, ◌⊎◌, refl, [], ℕ-eq}
use worldland_sdk.Go.Errors.{ok, err, text}
use worldland_sdk.Auth.{
  HttpReply, Libraries, SiweClient, login, domain_of, trim_slash, trim_0x, register_node,
  issue_certificate,
}
use worldland_sdk.Auth.Access.{Access, requests-Access}
use worldland_sdk.Auth.Login.{LoggedIn, login-LoggedIn}
use worldland_sdk.Examples.World.{machine, says}

abbrev reply : HttpReply
reply = record { status = 200; body = "n0nce" }

abbrev pub libraries : Libraries ℕ ℕ
libraries = record {
  get = λ url. says reply;
  post = λ url body. says reply;
  new_request = λ url. ok tt;
  send = λ url token body. says reply;
  encode_login = λ message signature. signature;
  encode_node = λ gpu_uuid gpu_type memory_gb price. gpu_uuid;
  decode_nonce = λ body. ok body;
  decode_token = λ body. ok body;
  decode_node_id = λ body. ok body;
  decode_bundle = λ body. err (text "no bundle");
  rfc3339 = λ now. "1970-01-01T00:00:00Z";
  hex_decode = λ digits. ok [];
  hex_encode = λ bytes. "00";
  to_ecdsa = λ bytes. ok 7;
  address_of = λ key. "0x00";
  keccak = λ message. [];
  sign = λ hash key. ok [];
}

abbrev client : SiweClient ℕ ℕ
client = record {
  machine = machine;
  hub_url = "http://hub.example:8080";
  domain = "";
  private_key = 7;
  address = "0x00";
  token = "";
}

host_with_port : domain_of "" "http://hub.example:8080/api" ≡ "hub.example"
unfolding domain_of
host_with_port = refl

no_scheme : domain_of "" "hub.example:8080" ≡ "localhost"
unfolding domain_of
no_scheme = refl

given_domain : domain_of "provider.example" "http://hub.example" ≡ "provider.example"
unfolding domain_of
given_domain = refl

trimmed : trim_slash "http://hub.example/" ≡ "http://hub.example"
trimmed = refl

hex_digits : trim_0x "0xabc" ≡ "abc"
hex_digits = refl

unregistered :
    (register_node libraries "GPU-1" "NVIDIA RTX 4090" 24 "2777777777778" client).0
    ≡ err (text "not authenticated - call Login() first")
unfolding register_node
unregistered = refl

login-LoggedIn_example : LoggedIn libraries client (login libraries client)
login-LoggedIn_example = login-LoggedIn libraries client

requests-Access_example :
    Access libraries "/api/v1/nodes" "GPU-1"
      (λ s. (s ≡ 201) ⊎ (s ≡ 200))
      libraries.decode_node_id
      client
      (register_node libraries "GPU-1" "NVIDIA RTX 4090" 24 "2777777777778"
        (login libraries client).1)
    × Access libraries "/api/v1/certs/bootstrap" ""
        (λ s. s ≡ 200)
        libraries.decode_bundle
        client
        (issue_certificate libraries (login libraries client).1)
requests-Access_example =
    requests-Access libraries client "GPU-1" "NVIDIA RTX 4090" 24 "2777777777778" refl
