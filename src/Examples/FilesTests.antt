-- ===== src/Examples/FilesTests.antt =====
-- The files of cmd/node/main.go on a machine whose world is a table of files.
use worldland_sdk.Base.{
  ◌≡◌, ◌↔◌, refl, String, String-eq, true, Option, none, some, [], ◌∷◌, not, is_some, text_iff,
  arith,
}
use worldland_sdk.Go.Errors.{Result, ok, err, text}
use worldland_sdk.Go.Map.{Map, lookup, insert, lookup-insert}
use worldland_sdk.Go.Machine.{Machine, Outside}
use worldland_sdk.Go.Strings.{trim_left, trim_right, first_bytes}
use worldland_sdk.Container.{◌<>◌}
use worldland_sdk.Auth.{CertificateBundle}
use worldland_sdk.Cmd.Os.{Os, CertPaths, save_certificates, get_machine_id}
use worldland_sdk.Cmd.Os.Certificates.{Filing, Differ, Saved, save_certificates-Saved}

abbrev Files : Type 0
Files = Map String String

abbrev answers : {A : Type 0} → A → Outside Files A
answers a w = record { result = ok a; took = 1; world = w }

abbrev found : Option String → Result String
found none = err (text "no such file")
found (some bytes) = ok bytes

abbrev os : Os Files
os = record {
  user_home_dir = answers "/root";
  hostname = answers "node";
  missing = λ path m. (not (is_some (lookup path m.world)), m);
  read_file = λ path w. record { result = found (lookup path w); took = 1; world = w };
  mkdir_all = λ path mode. answers tt;
  write_file =
      λ path bytes mode w. record { result = ok tt; took = 1; world = insert path bytes w };
  join = λ dir name. dir <> "/" <> name;
}

abbrev content : Files → String → Option String
content w path = lookup path w

missed :
    (path : String) (m : Machine Files)
    → ((os.missing path m).0 ≡ true) ↔ (content m.world path ≡ none)
missed path m = go (lookup path m.world)
  where
    go : (o : Option String) → (not (is_some o) ≡ true) ↔ (o ≡ none)
    go none = ground arith
    go (some bytes) = ground arith

filing : Filing os content
filing = record {
  written = λ path bytes mode w done q. lookup-insert path q bytes w;
  missed = missed;
  missing_keeps = λ path m. refl;
  read = λ path bytes w e. rw e refl;
}

differ : Differ os "certs"
differ = record {
  cert_key = λ e. ground (arith, text_iff "certs/node.crt" "certs/node.key");
  cert_ca = λ e. ground (arith, text_iff "certs/node.crt" "certs/ca.crt");
  key_ca = λ e. ground (arith, text_iff "certs/node.key" "certs/ca.crt");
}

abbrev bundle : CertificateBundle
bundle = record {
  certificate = "CERT";
  private_key = "KEY";
  ca_certificate = "CA";
  expires_at = "";
  wallet_address = "0x00";
}

abbrev paths : CertPaths
paths = record { cert = "certs/node.crt"; key = "certs/node.key"; ca = "certs/ca.crt" }

abbrev empty : Machine Files
empty = record { clock = 1000; world = [] }

abbrev after : Machine Files
after = record {
  clock = 1004;
  world =
      insert "certs/ca.crt" "CA"
        (insert "certs/node.key" "KEY" (insert "certs/node.crt" "CERT" []));
}

saved : save_certificates os "certs" bundle empty ≡ (ok paths, after)
unfolding save_certificates
saved = refl

save_certificates-Saved_example : Saved os content filing bundle paths after
save_certificates-Saved_example =
    save_certificates-Saved os content filing "certs" bundle empty after paths differ saved

abbrev with_id : String → Machine Files
with_id id = record { clock = 0; world = ("/etc/machine-id", id) ∷ [] }

long_id : (get_machine_id os (with_id "0123456789abcdef0123\n")).0 ≡ ok "MACHINE-0123456789abcdef"
unfolding get_machine_id trim_left trim_right first_bytes lookup
long_id = refl

short_id : (get_machine_id os (with_id " abc\n")).0 ≡ err (text "panic: slice bounds out of range")
unfolding get_machine_id trim_left trim_right first_bytes lookup
short_id = refl

no_id : (get_machine_id os (with_id "  \n")).0 ≡ ok "CPU-node"
unfolding get_machine_id trim_left trim_right first_bytes lookup
no_id = refl
