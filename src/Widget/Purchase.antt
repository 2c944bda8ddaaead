-- ===== src/Widget/Purchase.antt =====
-- A purchase: the browser client of examples/browser-paywall/l402-paywall.js against the flat toll of
-- internal/proxy/proxy.go with the Lightning backend.
use blockade.Prelude.{
  length, ok, Bytes, IsBytes, ℕ, ◌≡◌, refl, Bool, false, some, [], ◌∷◌, ◌++◌, arith,
}
use blockade.Std.Base64
use blockade.Std.Hex
use blockade.Std.Sha256.{sum256}
use blockade.Std.Strings.{trim_prefix}
use blockade.Std.Http.{
  Request, Writer, fresh_writer, get, del, set_header, write_header, response, status,
}
use blockade.Price.{with_price}
use blockade.Store.Types.{StoreLaws, IsReliable}
use blockade.Lightning.Services.{settled, Invoice, MacaroonLaws}
use blockade.Lightning.Client
use blockade.Lightning.Token.Laws.{format}
use blockade.Lightning.Verifier as Lightning
use blockade.Lightning.Verifier.{
  World, l402_challenge, mint_macaroon, issue_challenge, verify_proof, extract_token,
}
use blockade.Lightning.Interface.{lightning_verifier}
use blockade.Lightning.Challenge.{Challenges, paid_challenge_accepted}
use blockade.Proxy.Handler.{Handler, State, Route, authorization_header}
use blockade.Proxy.Visits.{
  flat_handler, Visits, Asks, reads_back, serve_http_challenged, paid-Forwarded,
}
use blockade.Proxy.Serve.{set_cors, serve_http}
use blockade.Widget.{parse_challenge, challenge_type, build_auth_header}
use blockade.Widget.Laws.{IsReadable, parse_challenge-IsReadable}

module _ {M E S P N F : Type 0} (v : Lightning.Verifier M E S)
    (base : Handler (World E S) P N F) where
  -- The handler with the Lightning backend and without metering.
  abbrev pub lightning_handler : Handler (World E S) P N F
  lightning_handler = flat_handler (lightning_verifier v) base

  issues :
      (r : Request) (w : Writer) (world : World E S) (pay_req hash : Bytes) (m : M) (raw : Bytes)
      → Challenges v r world pay_req hash m raw
      → (issue_challenge v r w world).0
        ≡ ok (
            write_header 402
              (set_header "Www-Authenticate" (l402_challenge (Base64.encode raw) pay_req) w))
  unfolding issue_challenge mint_macaroon Client.add_invoice
  issues r w world pay_req hash m raw c = ground (arith, c.prices, c.invoices, c.mints, c.marshals)

  header-token :
      (raw preimage : Bytes)
      → extract_token (build_auth_header (Base64.encode raw) (Hex.encode preimage))
        ≡ some (format raw preimage)
  unfolding extract_token trim_prefix build_auth_header
  header-token raw preimage = refl

  module _ (spent : S → Bytes → Bool) (laws : StoreLaws v.st spent) (reliable : IsReliable v.st)
      (mac : MacaroonLaws v.lib) where
    -- Without metering, a client that pays gets through. On the flat toll with the Lightning backend, a
    -- request without a token, which the rate limit lets through, is answered by status 402, and the
    -- browser client reads the invoice and the macaroon from that answer. When it later sends a request
    -- with that macaroon and the preimage of the invoice to a proxy that has no metering either, in
    -- any state of it, the request is sent on to the upstream of its route, without its Authorization
    -- header, if lnd then reports the invoice as settled and the payment hash is unspent. Assumed is
    -- that lnd and the macaroon library make the challenge, that the challenge is readable, that the
    -- preimage has 32 bytes, and that the store and the macaroon library keep their contracts and
    -- the store does not fail.
    pub paid_request_served :
        (now : ℕ) (r : Request) (rt : Route) (s : State (World E S) P N) (pay_req : Bytes) (m : M)
        (raw preimage : Bytes)
        → Asks (lightning_verifier v) base now r rt s
        → Challenges v (with_price rt.price_sats r) s.backend pay_req (sum256 preimage) m raw
        → IsReadable raw pay_req
        → IsBytes preimage
        → length preimage ≡ 32
        → (later : ℕ) (r' : Request) (rt' : Route) (s' : State (World E S) P N) (inv : Invoice)
        → Visits (lightning_verifier v) base r' rt'
        → get authorization_header r'.header
          ≡ build_auth_header (Base64.encode raw) (Hex.encode preimage)
        → (v.services.rpc_lookup_invoice (sum256 preimage) s'.backend.env).0 ≡ ok inv
        → inv.state ≡ settled
        → spent s'.backend.store (Hex.encode (sum256 preimage)) ≡ false
        → (status (serve_http lightning_handler now r fresh_writer s).0 ≡ 402)
          × (parse_challenge (
                get "Www-Authenticate"
                  (response (serve_http lightning_handler now r fresh_writer s).0).1)
              ≡ some (record {
                macaroon = Base64.encode raw;
                invoice = pay_req;
                kind = challenge_type (l402_challenge (Base64.encode raw) pay_req);
              }))
          × ((serve_http lightning_handler later r' fresh_writer s').1.forwards
              ≡ s'.forwards
                ++ record {
                  upstream = rt'.upstream;
                  request = record r' { header = del authorization_header r'.header };
                }
                  ∷ [])
    paid_request_served now r rt s pay_req m raw preimage asks c readable pb pl later r' rt' s' inv
          visits carries reads settles fresh =
        let (status_402, header_back) = reads_back (l402_challenge (Base64.encode raw) pay_req) in
        let (challenged, _) =
          serve_http_challenged (lightning_verifier v) base now r rt s
            (l402_challenge (Base64.encode raw) pay_req) asks
            (issues (with_price rt.price_sats r) (set_cors fresh_writer) s.backend pay_req
              (sum256 preimage) m raw c) in
        (
          rw challenged status_402,
          rw (challenged, header_back)
              (parse_challenge-IsReadable raw pay_req (mac.marshal_bytes m raw c.marshals)
                readable),
          paid-Forwarded (lightning_verifier v) base later r' rt' s' (format raw preimage) visits
              (rw carries (header-token raw preimage))
              (paid_challenge_accepted v spent laws reliable mac (with_price rt.price_sats r)
                s.backend pay_req m raw preimage c pb pl later s'.backend inv reads settles fresh),
        )
