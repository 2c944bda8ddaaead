-- ===== src/Examples/Prices.antt =====
-- Prices, counts and the configuration on concrete inputs.
use blockade.Prelude.{ok, Bytes, bytes, ◌+◌, ◌*◌, ◌^◌, ◌≡◌, ◌↔◌, none, some, [], ◌∷◌, arith}
use blockade.Prelude.Int.{ℤ, pos, ◌<ℤ◌, leb_ℤ}
use blockade.Price.{curve_price}
use blockade.Price.Curve.{curve_price-lt, total, total-eq, curve_price_overflow}
use blockade.Store.Principal.{MemPrincipalStore}
use blockade.Config.{Config, validate}
use blockade.Config.Validity.{IsValid, validate_iff}
use blockade.Examples.Fixtures.{curve}

curve_price-lt_example :
    curve_price (pos 5) (pos 10) (pos 3) <ℤ curve_price (pos 6) (pos 10) (pos 3)
curve_price-lt_example =
    curve_price-lt 5 6 10 3 (omega arith) (omega arith) (omega arith) (omega arith) (omega arith)

total-eq_example : 2 * total 4 10 3 ≡ 2 * (4 * 10) + 3 * (4 * 3)
total-eq_example = total-eq 4 10 3 (omega arith) (omega arith)

-- A slope of 2 ^ 62 at the third request.
curve_price_overflow_example : curve_price (pos 2) (pos (2 ^ 62)) (pos (2 ^ 62)) <ℤ pos 0
curve_price_overflow_example =
    curve_price_overflow 2 (2 ^ 62) (2 ^ 62) (omega arith) (omega arith) (omega arith) (omega arith)
      (omega arith)

abbrev alice : Bytes
alice = bytes "alice"

abbrev principals : MemPrincipalStore
principals = (alice, record { request_count = pos 3; enrolled_at = pos 0 }) ∷ []

-- The configuration file of a Lightning node with metering; floats are integers.
abbrev settings : Config ℤ
settings = record {
  listen_addr = bytes ":8080";
  db_path = [];
  lnd = some (record {
    host = bytes "localhost:10009";
    tls_cert_path = bytes "tls.cert";
    macaroon_path = bytes "admin.macaroon";
  });
  bitcoind = none;
  rate_limit = some (record { requests_per_second = pos 5; burst = pos 10 });
  curve = some curve;
  routes =
      record { path_prefix = bytes "/get"; upstream = bytes "http://u"; price_sats = pos 10 } ∷ [];
}

validate_iff_example :
    (validate (λ x. leb_ℤ x (pos 0)) settings ≡ ok tt) ↔ IsValid (λ x. leb_ℤ x (pos 0)) settings
validate_iff_example = validate_iff (λ x. leb_ℤ x (pos 0)) settings
