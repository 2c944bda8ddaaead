-- ===== src/Config.antt =====
-- internal/config/config.go: the configuration and its validation. Files and the YAML package
-- are parameters.
pub mod Validity
use blockade.Prelude.{
  Error, new, at_index, Result, ok, err, ◌>>=◌, context, ◌==◌, Bytes, ℕ, ◌+◌, Bool, true, false,
  not, ◌&&◌, Option, none, some, List, [], ◌∷◌,
}
use blockade.Prelude.Int.{ℤ, pos, ltb_ℤ, leb_ℤ}

pub record CurveConfig : Type 0 where
  pub floor_toll_sats : ℤ
  pub anonymous_cap : ℤ
  pub escalation_slope : ℤ
  pub enrollment_stake_sats : ℤ

-- `F` stands for float64.
pub record RateLimitConfig (F : Type 0) : Type 0 where
  pub requests_per_second : F
  pub burst : ℤ

pub record LndConfig : Type 0 where
  pub host : Bytes
  pub tls_cert_path : Bytes
  pub macaroon_path : Bytes

pub record BitcoindConfig : Type 0 where
  pub host : Bytes
  pub rpc_user : Bytes
  pub rpc_pass : Bytes
  pub min_confirmations : ℤ

pub record RouteConfig : Type 0 where
  pub path_prefix : Bytes
  pub upstream : Bytes
  pub price_sats : ℤ

pub record Config (F : Type 0) : Type 0 where
  pub listen_addr : Bytes
  pub db_path : Bytes
  pub lnd : Option LndConfig
  pub bitcoind : Option BitcoindConfig
  pub rate_limit : Option (RateLimitConfig F)
  pub curve : Option CurveConfig
  pub routes : List RouteConfig

-- `if test { return err }` in front of the rest.
infixr 2 ◌andthen◌
abbrev ◌andthen◌ : Result (Unit {0}) → Result (Unit {0}) → Result (Unit {0})
ok u andthen rest = rest
err e andthen rest = err e

abbrev reject : Bool → Error → Result (Unit {0})
reject true e = err e
reject false e = ok tt

abbrev is_some : {A : Type 0} → Option A → Bool
is_some none = false
is_some (some a) = true

unfoldable validate_lnd : Option LndConfig → Result (Unit {0})
validate_lnd none = ok tt
validate_lnd (some c) =
    reject (c.host == []) (new "lnd.host is required")
    andthen reject (c.tls_cert_path == []) (new "lnd.tls_cert_path is required")
    andthen reject (c.macaroon_path == []) (new "lnd.macaroon_path is required")

unfoldable validate_bitcoind : Option BitcoindConfig → Result (Unit {0})
validate_bitcoind none = ok tt
validate_bitcoind (some c) =
    reject (c.host == []) (new "bitcoind.host is required")
    andthen reject (c.rpc_user == []) (new "bitcoind.rpc_user is required")
    andthen reject (c.rpc_pass == []) (new "bitcoind.rpc_password is required")
    andthen reject (ltb_ℤ c.min_confirmations (pos 0))
        (new "bitcoind.min_confirmations must be >= 0")

unfoldable validate_curve : Bool → Option CurveConfig → Result (Unit {0})
validate_curve onchain none = ok tt
validate_curve onchain (some c) =
    reject (leb_ℤ c.floor_toll_sats (pos 0)) (new "curve.floor_toll_sats must be > 0")
    andthen reject (leb_ℤ c.anonymous_cap (pos 0)) (new "curve.anonymous_cap must be > 0")
    andthen reject (leb_ℤ c.escalation_slope (pos 0)) (new "curve.escalation_slope must be > 0")
    andthen reject (leb_ℤ c.enrollment_stake_sats (pos 0))
        (new "curve.enrollment_stake_sats must be > 0")
    andthen reject onchain (new "curve metering requires lnd backend (Lightning only)")

-- The loop over the routes, from the index `i` on.
unfoldable validate_routes : ℕ → List RouteConfig → Result (Unit {0})
validate_routes i [] = ok tt
validate_routes i (r ∷ rs) =
    reject (r.path_prefix == []) (at_index "routes" i ".path_prefix is required")
    andthen reject (r.upstream == []) (at_index "routes" i ".upstream is required")
    andthen reject (leb_ℤ r.price_sats (pos 0)) (at_index "routes" i ".price_sats must be > 0")
    andthen validate_routes (i + 1) rs

abbrev is_empty : {A : Type 0} → List A → Bool
is_empty [] = true
is_empty (x ∷ xs) = false

-- `le_zero` is `x <= 0` on float64.
module _ {F : Type 0} (le_zero : F → Bool) where
  unfoldable validate_rate_limit : Option (RateLimitConfig F) → Result (Unit {0})
  validate_rate_limit none = ok tt
  validate_rate_limit (some c) =
      reject (le_zero c.requests_per_second) (new "rate_limit.requests_per_second must be > 0")
      andthen reject (leb_ℤ c.burst (pos 0)) (new "rate_limit.burst must be > 0")

  unfoldable pub validate : Config F → Result (Unit {0})
  unfolding validate_lnd validate_bitcoind validate_rate_limit validate_curve validate_routes
  validate cfg =
      reject (cfg.listen_addr == []) (new "listen_addr is required")
      andthen reject (not (is_some cfg.lnd) && not (is_some cfg.bitcoind))
          (new "either lnd or bitcoind backend must be configured")
      andthen reject (is_some cfg.lnd && is_some cfg.bitcoind)
          (new "only one of lnd or bitcoind may be configured")
      andthen validate_lnd cfg.lnd
      andthen validate_bitcoind cfg.bitcoind
      andthen validate_rate_limit cfg.rate_limit
      andthen validate_curve (is_some cfg.bitcoind) cfg.curve
      andthen reject (is_empty cfg.routes) (new "at least one route is required")
      andthen validate_routes 0 cfg.routes

  -- `unmarshal` is yaml.Unmarshal.
  unfoldable pub load :
      (Bytes → Result Bytes) → (Bytes → Result (Config F)) → Bytes → Result (Config F)
  load read_file unmarshal path = do
    text ← context "read config" (read_file path)
    cfg ← context "parse config" (unmarshal text)
    _ ← validate cfg
    ok cfg
