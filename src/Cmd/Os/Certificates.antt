-- ===== src/Cmd/Os/Certificates.antt =====
-- `saveCertificates` and `certsExist` of cmd/node/main.go against the files of the machine.
use worldland_sdk.Base.{
  ℕ, ◌≡◌, ◌≢◌, ◌↔◌, refl, sym, ap, subst, ◌∙◌, String, true, false, Option, none, some, List, [],
  ◌∷◌, All, ◌==◌, String-eq, text_iff, ==_refl, if◌then◌else◌, inl, inr, arith,
}
use worldland_sdk.Go.Errors.{Result, ok, err, Result-cases}
use worldland_sdk.Go.Machine.{Machine, perform}
use worldland_sdk.Auth.{CertificateBundle}
use worldland_sdk.Cmd.Os.{Os, CertPaths, save_certificates, certs_exist, all_exist}

-- The files of the machine, as long as nobody else changes them: what the functions of os do to them.
pub record Filing {W : Type 0} (os : Os W) (content : W → String → Option String) : Type 0 where
  pub written :
      (path bytes : String) (mode : ℕ) (w : W)
      → (os.write_file path bytes mode w).result ≡ ok tt
      → (q : String)
      → content (os.write_file path bytes mode w).world q
        ≡ (if path == q then some bytes else content w q)
  pub missed :
      (path : String) (m : Machine W)
      → ((os.missing path m).0 ≡ true) ↔ (content m.world path ≡ none)
  pub missing_keeps : (path : String) (m : Machine W) → (os.missing path m).1.world ≡ m.world
  pub read :
      (path bytes : String) (w : W)
      → content w path ≡ some bytes
      → (os.read_file path w).result ≡ ok bytes

-- The three paths in the directory differ.
pub record Differ {W : Type 0} (os : Os W) (dir : String) : Type 0 where
  pub cert_key : os.join dir "node.crt" ≢ os.join dir "node.key"
  pub cert_ca : os.join dir "node.crt" ≢ os.join dir "ca.crt"
  pub key_ca : os.join dir "node.key" ≢ os.join dir "ca.crt"

module _ {W : Type 0} (os : Os W) (content : W → String → Option String)
    (filing : Filing os content) where
  -- The bundle stands in the files.
  pub record Saved (bundle : CertificateBundle) (p : CertPaths) (m : Machine W) : Type 0 where
    pub cert : content m.world p.cert ≡ some bundle.certificate
    pub key : content m.world p.key ≡ some bundle.private_key
    pub ca : content m.world p.ca ≡ some bundle.ca_certificate
    pub exist : (certs_exist os p m).0 ≡ true
    pub ca_read : (perform (os.read_file p.ca) m).0 ≡ ok bundle.ca_certificate

  put :
      (path bytes : String) (mode : ℕ) (w : W)
      → (os.write_file path bytes mode w).result ≡ ok tt
      → content (os.write_file path bytes mode w).world path ≡ some bytes
  put path bytes mode w e = filing.written path bytes mode w e path ∙ rw (==_refl path)

  kept :
      (path bytes : String) (mode : ℕ) (w : W) (q : String)
      → (os.write_file path bytes mode w).result ≡ ok tt
      → path ≢ q
      → content (os.write_file path bytes mode w).world q ≡ content w q
  kept path bytes mode w q e ne =
      ground (arith, text_iff path q, filing.written path bytes mode w e q)

  all_exist-true :
      (files : List String) (m : Machine W) (w : W)
      → m.world ≡ w
      → All (λ f. content w f ≢ none) files
      → (all_exist os files m).0 ≡ true
  unfolding all_exist
  all_exist-true [] m w e h = refl
  all_exist-true (f ∷ files) m w e h =
      let there : (os.missing f m).0 ≡ false = ground (arith, filing.missed f m, h.0, e) in
      rw there (all_exist-true files (os.missing f m).1 w (filing.missing_keeps f m ∙ e) h.1)

  -- The world after the three files were written over `w`.
  module _ (dir : String) (bundle : CertificateBundle) (differ : Differ os dir) where
    abbrev paths : CertPaths
    paths = record {
      cert = os.join dir "node.crt";
      key = os.join dir "node.key";
      ca = os.join dir "ca.crt";
    }

    abbrev after : String → String → ℕ → W → W
    after path bytes mode w = (os.write_file path bytes mode w).world

    abbrev made : W → W
    made w = (os.mkdir_all dir 0o700 w).world

    abbrev wrote_cert : W → W
    wrote_cert w = after paths.cert bundle.certificate 0o644 w

    abbrev wrote_key : W → W
    wrote_key w = after paths.key bundle.private_key 0o600 w

    abbrev wrote_ca : W → W
    wrote_ca w = after paths.ca bundle.ca_certificate 0o644 w

    written-Saved :
        (w : W) (m : Machine W)
        → (os.write_file paths.cert bundle.certificate 0o644 w).result ≡ ok tt
        → (os.write_file paths.key bundle.private_key 0o600 (wrote_cert w)).result ≡ ok tt
        → (os.write_file paths.ca bundle.ca_certificate 0o644 (wrote_key (wrote_cert w))).result
          ≡ ok tt
        → m.world ≡ wrote_ca (wrote_key (wrote_cert w))
        → Saved bundle paths m
    unfolding certs_exist
    written-Saved w m e1 e2 e3 e = record {
      cert = cert;
      key = key;
      ca = ca;
      exist =
          all_exist-true (paths.cert ∷ paths.key ∷ paths.ca ∷ []) m m.world refl
            (is_there cert, (is_there key, (is_there ca, tt)));
      ca_read = filing.read _ _ m.world ca;
    }
      where
        cert : content m.world paths.cert ≡ some bundle.certificate
        cert =
            ap (λ w'. content w' paths.cert) e
            ∙ kept _ _ _ (wrote_key (wrote_cert w)) paths.cert e3 (λ q. differ.cert_ca (sym q))
            ∙ kept _ _ _ (wrote_cert w) paths.cert e2 (λ q. differ.cert_key (sym q))
            ∙ put _ _ _ w e1

        key : content m.world paths.key ≡ some bundle.private_key
        key =
            ap (λ w'. content w' paths.key) e
            ∙ kept _ _ _ (wrote_key (wrote_cert w)) paths.key e3 (λ q. differ.key_ca (sym q))
            ∙ put _ _ _ (wrote_cert w) e2

        ca : content m.world paths.ca ≡ some bundle.ca_certificate
        ca = ap (λ w'. content w' paths.ca) e ∙ put _ _ _ (wrote_key (wrote_cert w)) e3

        is_there :
            {path bytes : String} → content m.world path ≡ some bytes → content m.world path ≢ none
        is_there h n = ground (arith, h)

    abbrev IfSaved : Result CertPaths × Machine W → Type 0
    IfSaved (ok p, m) = Saved bundle p m
    IfSaved (err x, m) = Unit {0}

    save-IfSaved : (m : Machine W) → IfSaved (save_certificates os dir bundle m)
    unfolding save_certificates
    save-IfSaved m =
        let w = made m.world in
        elim (Result-cases (os.mkdir_all dir 0o700 m.world).result) [
          | inr (x, bad) ↦ rw bad tt
          | inl (a, e0) ↦
              rw e0
                (elim (Result-cases (os.write_file paths.cert bundle.certificate 0o644 w).result) [
                  | inr (x, bad) ↦ rw bad tt
                  | inl (b, e1) ↦
                      rw e1
                        (elim (Result-cases
                          (os.write_file paths.key bundle.private_key 0o600
                            (wrote_cert w)).result) [
                              | inr (x, bad) ↦ rw bad tt
                              | inl (c, e2) ↦
                                  rw e2
                                    (elim (Result-cases
                                      (os.write_file paths.ca bundle.ca_certificate 0o644
                                        (wrote_key (wrote_cert w))).result) [
                                          | inr (x, bad) ↦ rw bad tt
                                          | inl (d, e3) ↦ rw e3 (written-Saved w _ e1 e2 e3 refl)
                                        ])
                            ])
                ])
        ]

  -- After the certificates were saved without an error, the three files hold the certificate, the key
  -- and the CA certificate of the bundle, the next `certsExist` finds them all, and reading the CA's
  -- file yields the CA certificate.
  pub save_certificates-Saved :
      (dir : String) (bundle : CertificateBundle) (m m' : Machine W) (p : CertPaths)
      → Differ os dir
      → save_certificates os dir bundle m ≡ (ok p, m')
      → Saved bundle p m'
  save_certificates-Saved dir bundle m m' p differ e =
      subst (IfSaved dir bundle differ) e (save-IfSaved dir bundle differ m)
