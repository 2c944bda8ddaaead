-- ===== src/Lightning/Dial.antt =====
-- NewClient and macaroonCredential of internal/payment/lightning/client.go: the connection to lnd.
use blockade.Prelude.{
  if◌then◌else◌, Bool-cases, new, Result, ok, err, ◌>>=◌, context, Result-cases, Bytes, String, ◌≡◌,
  refl, ◌↔◌, inl, inr, Bool, true, List, [], ◌∷◌, arith,
}
use blockade.Std.Hex
use blockade.Lightning.Services.{Services}

-- credentials.PerRPCCredentials, by what its methods return.
pub record PerRpcCredentials : Type 0 where
  pub request_metadata : List (String × Bytes)
  pub require_transport_security : Bool

-- credentials.NewTLS of a configuration with these root certificates, in PEM.
pub record TransportCredentials : Type 0 where
  pub root_cas : Bytes

-- The files, whether crypto/x509 finds a certificate in a text, and grpc.NewClient at a host.
pub record Dialer (E : Type 0) : Type 0 where
  pub read_file : Bytes → Result Bytes
  pub has_certs : Bytes → Bool
  pub grpc_new_client : Bytes → TransportCredentials → PerRpcCredentials → Result (Services E)

-- macaroonCredential, a text, with its two methods.
unfoldable pub macaroon_credential : Bytes → PerRpcCredentials
macaroon_credential m = record {
  request_metadata = ("macaroon", m) ∷ [];
  require_transport_security = true;
}

module _ {E : Type 0} (d : Dialer E) where
  -- pool.AppendCertsFromPEM(certBytes)
  unfoldable pub cert_pool : Bytes → Result TransportCredentials
  cert_pool cert =
      if d.has_certs cert
      then ok (record { root_cas = cert })
      else err (new "parse tls cert: no valid PEM block found")

  unfoldable pub new_client : Bytes → Bytes → Bytes → Result (Services E)
  unfolding cert_pool macaroon_credential
  new_client host tls_cert_path macaroon_path = do
    cert ← context "read tls cert" (d.read_file tls_cert_path)
    tls ← cert_pool cert
    mac ← context "read macaroon" (d.read_file macaroon_path)
    context "dial lnd" (d.grpc_new_client host tls (macaroon_credential (Hex.encode mac)))

  -- What is needed to connect, and what each call will then carry: over TLS alone, against the
  -- certificates of the one file, a macaroon that decodes to the content of the other.
  pub record Connects (host tls_cert_path macaroon_path : Bytes) (cert mac : Bytes)
      (tls : TransportCredentials) (creds : PerRpcCredentials) (sv : Services E) : Type 0 where
    pub reads_cert : d.read_file tls_cert_path ≡ ok cert
    pub has_cert : d.has_certs cert ≡ true
    pub reads_mac : d.read_file macaroon_path ≡ ok mac
    pub trusts : tls.root_cas ≡ cert
    pub secured : creds.require_transport_security ≡ true
    pub carries :
        (m : Bytes) × (creds.request_metadata ≡ ("macaroon", m) ∷ []) × (m ≡ Hex.encode mac)
    pub dials : d.grpc_new_client host tls creds ≡ ok sv

  new_client-Connects :
      (host tls_cert_path macaroon_path : Bytes) (sv : Services E)
      → new_client host tls_cert_path macaroon_path ≡ ok sv
      → (cert : Bytes) × (mac : Bytes) × (tls : TransportCredentials) × (creds : PerRpcCredentials)
        × Connects host tls_cert_path macaroon_path cert mac tls creds sv
  unfolding new_client
  new_client-Connects host tp mp sv h = elim (Result-cases (d.read_file tp)) [
    | inr (e, p) ↦ absurd (ground (arith, p))
    | inl (cert, p) ↦ elim (Bool-cases (d.has_certs cert)) [
      | inr c ↦ absurd (ground (arith, p, c))
      | inl c ↦ elim (Result-cases (d.read_file mp)) [
        | inr (e, q) ↦ absurd (ground (arith, p, c, q))
        | inl (mac, q) ↦ (
          cert,
          mac,
          record { root_cas = cert },
          macaroon_credential (Hex.encode mac),
          record {
            reads_cert = p;
            has_cert = c;
            reads_mac = q;
            trusts = refl;
            secured = refl;
            carries = (_, refl, refl);
            dials = ground (arith, p, c, q);
          },
        )
      ]
    ]
  ]

  new_client_dials :
      (host tls_cert_path macaroon_path cert mac : Bytes) (tls : TransportCredentials)
      (creds : PerRpcCredentials) (sv : Services E)
      → Connects host tls_cert_path macaroon_path cert mac tls creds sv
      → new_client host tls_cert_path macaroon_path ≡ ok sv
  unfolding new_client
  new_client_dials host tp mp cert mac tls creds sv c =
      let same_tls : tls ≡ record { root_cas = cert } = ground (arith, c.trusts) in
      let (m, carried, encoded) = c.carries in
      let same_rpc : creds ≡ macaroon_credential (Hex.encode mac) =
        ground (arith, c.secured, carried, encoded) in
      let dialled : d.grpc_new_client host (record { root_cas = cert })
            (macaroon_credential (Hex.encode mac))
          ≡ ok sv =
        rw (← same_tls, ← same_rpc) c.dials in
      ground (arith, c.reads_cert, c.has_cert, c.reads_mac, dialled)

  -- NewClient connects exactly if both files can be read, the first has a certificate, and grpc dials
  -- the host over TLS alone, trusting those certificates, with the second file in hexadecimal as the
  -- macaroon of each call.
  pub new_client_iff :
      (host tls_cert_path macaroon_path : Bytes) (sv : Services E)
      → (new_client host tls_cert_path macaroon_path ≡ ok sv) ↔ (
          (cert : Bytes) × (mac : Bytes) × (tls : TransportCredentials)
          × (creds : PerRpcCredentials) × Connects host tls_cert_path macaroon_path cert mac tls
              creds sv)
  new_client_iff host tp mp sv = (
    new_client-Connects host tp mp sv,
    λ (cert, mac, tls, creds, c). new_client_dials host tp mp cert mac tls creds sv c,
  )
