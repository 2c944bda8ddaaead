-- ===== src/Proxy/Serve.antt =====
-- ServeHTTP and handleSettlement of internal/proxy/proxy.go.
use blockade.Prelude.{
  if◌then◌else◌, ok, err, ◌==◌, Bytes, bytes, ℕ, true, false, none, some, [], ◌∷◌,
}
use blockade.Std.Hex
use blockade.Std.Http.{
  Request, Writer, str, flag, json, get, set_header, write_header, write, error, not_found,
}
use blockade.Payment.{CredentialIssuer}
use blockade.Proxy.Handler.{Handler, State, match_route}
use blockade.Proxy.Flat.{serve_flat}
use blockade.Proxy.Metered.{serve_metered}

unfoldable pub set_cors : Writer → Writer
set_cors w =
    set_header "Access-Control-Expose-Headers" (bytes "WWW-Authenticate, L402-Credential") (
      set_header "Access-Control-Allow-Headers"
        (bytes "Authorization, Content-Type, L402-Credential")
        (set_header "Access-Control-Allow-Methods" (bytes "GET, POST, OPTIONS")
          (set_header "Access-Control-Allow-Origin" (bytes "*") w)))

module _ {V P N F : Type 0} (h : Handler V P N F) where
  -- handleSettlement from LookupSettlement on.
  unfoldable pub answer_settlement :
      CredentialIssuer V → Bytes → Writer → State V P N → Writer × State V P N
  answer_settlement issuer ph_hex w s =
      let (settlement, b) = issuer.lookup_settlement ph_hex s.backend in
      let s' : State V P N = record s { backend = b } in
      let w' = set_header "Content-Type" (bytes "application/json") w in
      elim settlement [
        | err e ↦ (error "settlement lookup error" 500 w, s')
        | ok (some preimage_hex) ↦
            (write (json (("settled", flag true) ∷ ("preimage", str preimage_hex) ∷ [])) w', s')
        | ok none ↦ (write (json (("settled", flag false) ∷ [])) w', s')
      ]

  unfoldable pub handle_settlement :
      CredentialIssuer V → Request → Writer → State V P N → Writer × State V P N
  handle_settlement issuer r w s =
      let ph_hex = get "payment_hash" r.query in
      if ph_hex == []
      then (error "payment_hash query parameter required" 400 w, s)
      else elim (Hex.decode ph_hex) [
        | err e ↦ (error "invalid payment_hash hex" 400 w, s)
        | ok ph ↦ answer_settlement issuer ph_hex w s
      ]

  -- The route of the path, and the flat or the metered path to it.
  unfoldable pub serve_route : ℕ → Request → Writer → State V P N → Writer × State V P N
  serve_route now r w s = elim (match_route r.path h.routes) [
    | none ↦ (not_found w, s)
    | some rt ↦ elim h.metering [
      | none ↦ serve_flat h now r w rt s
      | some m ↦ serve_metered h m now r w rt s
    ]
  ]

  -- The settlement-status endpoint is there where a CredentialIssuer is.
  unfoldable pub dispatch : ℕ → Request → Writer → State V P N → Writer × State V P N
  dispatch now r w s = elim h.metering [
    | none ↦ serve_route now r w s
    | some m ↦
        if r.path == bytes "/l402/settlement"
        then handle_settlement m.cred_issuer r w s
        else serve_route now r w s
  ]

  unfoldable pub serve_http : ℕ → Request → Writer → State V P N → Writer × State V P N
  unfolding set_cors
  serve_http now r w s =
      if r.method == bytes "OPTIONS"
      then (write_header 204 (set_cors w), s)
      else dispatch now r (set_cors w) s
