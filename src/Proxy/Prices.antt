-- ===== src/Proxy/Prices.antt =====
-- serveFlat and serveMetered of internal/proxy/proxy.go: the price where a token is presented.
use blockade.Prelude.{ok, Bytes, lookup, ℕ, ◌≡◌, refl, some, arith}
use blockade.Prelude.Int.{ℤ}
use blockade.Std.Http.{Request, Writer, get}
use blockade.Config.{CurveConfig}
use blockade.Payment.{CredentialIssuer}
use blockade.Store.Principal.{PrincipalRecord, MemPrincipalStore, get_principal}
use blockade.Proxy.Counting.{in_memory, increment_succeeds}
use blockade.Proxy.Metered.{count_and_forward, serve_principal, serve_credentialed}
use blockade.Proxy.Handler.{Handler, State, Route, authorization_header, forward, with_proof}
use blockade.Proxy.Flat.{flat_token, serve_flat}

module _ {V P N F : Type 0} (h : Handler V P N F) where
  -- A request with a token is answered the same whatever the price of its route: the price is not
  -- compared with what was paid.
  pub serve_flat_any_price :
      (now : ℕ) (r : Request) (w : Writer) (rt : Route) (price : ℤ) (t : Bytes) (s : State V P N)
      → h.verifier.extract_token (get authorization_header r.header) ≡ some t
      → serve_flat h now r w (record rt { price_sats = price }) s ≡ serve_flat h now r w rt s
  unfolding serve_flat flat_token forward
  serve_flat_any_price now r w rt price t s e = rw (e, serve_flat) refl

module _ {V N F : Type 0} (h : Handler V MemPrincipalStore N F) (curve : CurveConfig)
    (issuer : CredentialIssuer V) where
  -- The same response, the same requests sent on, and the same payments spent.
  abbrev pub Alike :
      Writer × State V MemPrincipalStore N → Writer × State V MemPrincipalStore N → Type 0
  Alike a b = (a.0 ≡ b.0) × (a.1.forwards ≡ b.1.forwards) × (a.1.backend ≡ b.1.backend)

  count_and_forward-Alike :
      (id : Bytes) (r : Request) (w : Writer) (rt : Route) (s s' : State V MemPrincipalStore N)
      → s'.backend ≡ s.backend
      → s'.forwards ≡ s.forwards
      → Alike
          (count_and_forward h (in_memory h curve issuer) id r w rt s)
          (count_and_forward h (in_memory h curve issuer) id r w rt s')
  unfolding count_and_forward forward
  count_and_forward-Alike id r w rt s s' b f =
      let (n, e) = increment_succeeds h curve issuer id s.principal_state in
      let (n', e') = increment_succeeds h curve issuer id s'.principal_state in
      ground (arith, e, e', b, f)

  -- With the principals in memory, a request with a valid credential and a token is answered the
  -- same, the same is sent on and the same is spent, whatever the count of its principal, as long as
  -- it is known: the price that the curve asks for is not compared with what was paid.
  pub serve_credentialed_any_count :
      (now : ℕ) (cred id t : Bytes) (rec rec' : PrincipalRecord) (r : Request) (w : Writer)
      (rt : Route) (s : State V MemPrincipalStore N) (p : MemPrincipalStore)
      → issuer.validate_credential cred ≡ ok id
      → lookup id s.principal_state ≡ some rec
      → lookup id p ≡ some rec'
      → Alike (serve_credentialed h (in_memory h curve issuer) now cred (some t) r w rt s) (
          serve_credentialed h
            (in_memory h curve issuer)
            now
            cred
            (some t)
            r
            w
            rt
            (record s { principal_state = p }))
  unfolding serve_credentialed serve_principal get_principal with_proof
  serve_credentialed_any_count now cred id t rec rec' r w rt s p valid known known' =
      let v = (h.verifier.verify_proof now t s.backend).1 in
      ground (
        arith,
        valid,
        known,
        known',
        count_and_forward-Alike id r w rt (record s { backend = v })
            (record s { backend = v; principal_state = p }) refl refl,
      )
