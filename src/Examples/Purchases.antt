-- ===== src/Examples/Purchases.antt =====
-- A purchase at the concrete proxy: a request, its challenge, and the request that pays.
use blockade.Prelude.{bytes, ℕ, ◌≡◌, refl, false, none, some, [], ◌∷◌, ◌++◌, arith}
use blockade.Prelude.Int.{pos}
use blockade.Std.Base64
use blockade.Std.Hex
use blockade.Std.Sha256.{sum256}
use blockade.Std.Http.{Request, fresh_writer, get, del, response, status}
use blockade.Price.{with_price}
use blockade.Store.Mem.{MemStore}
use blockade.Store.Mem.Laws.{spent, mem_store-StoreLaws, mem_store-IsReliable}
use blockade.Store.Principal.{MemPrincipalStore}
use blockade.Lightning.Services.{Invoice, settled}
use blockade.Lightning.Verifier.{World, l402_challenge}
use blockade.Lightning.Challenge.{Challenges}
use blockade.Proxy.Handler.{State, authorization_header}
use blockade.Proxy.Serve.{serve_http}
use blockade.Widget.{parse_challenge, challenge_type, build_auth_header}
use blockade.Widget.Laws.{IsReadable}
use blockade.Widget.Purchase.{lightning_handler, paid_request_served}
use blockade.Lightning.Interface.{lightning_verifier}
use blockade.Proxy.Visits.{Visits, Asks}
use blockade.Examples.Computing.{computing}
use blockade.Examples.Macaroons.{plain_lib-MacaroonLaws}
use blockade.Examples.Fixtures.{
  lightning, handler, route, start, get_with, preimage, paid_macaroon, raw_macaroon,
}

abbrev first_request : Request
first_request = get_with []

abbrev second_request : Request
second_request = get_with (build_auth_header (Base64.encode raw_macaroon) (Hex.encode preimage))

abbrev challenged : State (World ℕ MemStore) MemPrincipalStore ℕ
challenged =
    (serve_http (lightning_handler lightning (handler none)) 0 first_request fresh_writer start).1

abbrev invoice : Invoice
invoice = record { state = settled; r_preimage = [] }

asks : Asks (lightning_verifier lightning) (handler none) 0 first_request route start
unfolding computing
asks = record { visits = record { real = refl; matches = refl }; bare = refl; admitted = refl }

first_challenge :
    Challenges lightning
      (with_price route.price_sats first_request)
      start.backend
      (bytes "lnbc1")
      (sum256 preimage)
      paid_macaroon
      raw_macaroon
unfolding computing
first_challenge = record {
  price = pos 10;
  prices = refl;
  invoices = refl;
  mints = refl;
  marshals = refl;
}

readable : IsReadable raw_macaroon (bytes "lnbc1")
unfolding computing
readable = record {
  plain = ground arith;
  has_invoice = λ e. cc;
  has_macaroon = λ e. cc;
  apart = refl;
}

visits : Visits (lightning_verifier lightning) (handler none) second_request route
unfolding computing
visits = record { real = refl; matches = refl }

carries :
    get authorization_header second_request.header
    ≡ build_auth_header (Base64.encode raw_macaroon) (Hex.encode preimage)
unfolding computing
carries = refl

unspent : spent challenged.backend.store (Hex.encode (sum256 preimage)) ≡ false
unfolding computing
unspent = refl

paid_request_served_example :
    (status
        (serve_http
          (lightning_handler lightning (handler none))
          0
          first_request
          fresh_writer
          start).0
      ≡ 402)
    × (parse_challenge (
          get "Www-Authenticate"
            (response
              (serve_http
                (lightning_handler lightning (handler none))
                0
                first_request
                fresh_writer
                start).0).1)
        ≡ some (record {
          macaroon = Base64.encode raw_macaroon;
          invoice = bytes "lnbc1";
          kind = challenge_type (l402_challenge (Base64.encode raw_macaroon) (bytes "lnbc1"));
        }))
    × ((serve_http
          (lightning_handler lightning (handler none))
          5
          second_request
          fresh_writer
          challenged).1.forwards
        ≡ challenged.forwards
          ++ record {
            upstream = route.upstream;
            request = record second_request {
              header = del authorization_header second_request.header;
            };
          }
            ∷ [])
paid_request_served_example =
    paid_request_served lightning (handler none) spent mem_store-StoreLaws mem_store-IsReliable
      plain_lib-MacaroonLaws 0 first_request route start (bytes "lnbc1") paid_macaroon raw_macaroon
      preimage asks first_challenge readable (ground arith) refl 5 second_request route challenged
      invoice visits carries refl refl unspent
