-- ===== src/Examples/Fixtures.antt =====
-- A concrete node, backends, handler and requests.
use blockade.Prelude.{
  ok, Bytes, bytes, ℕ, zero, suc, true, false, Option, none, some, [], ◌∷◌, ◌++◌,
}
use blockade.Prelude.Int.{pos}
use blockade.Std.Hex
use blockade.Std.Sha256.{sum256}
use blockade.Std.Http.{Request}
use blockade.Lightning.Services.{Services, settled}
use blockade.Lightning.Verifier.{Verifier, World}
use blockade.Lightning.Token.Laws.{format}
use blockade.Lightning.Interface.{lightning_verifier, lightning_issuer}
use blockade.Store.Mem.{MemStore, new_mem_store, mem_store}
use blockade.Store.Principal.{MemPrincipalStore, mem_principals}
use blockade.Config.{CurveConfig}
use blockade.Proxy.Handler.{Handler, State, Route, RateLib, Metering}
use blockade.Examples.Macaroons.{Plain, plain_lib}

abbrev pub repeat : ℕ → ℕ → Bytes
repeat zero b = []
repeat (suc n) b = b ∷ repeat n b

-- An lnd that has given out `n` invoices, and settles each at once.
abbrev pub node : Services ℕ
node = record {
  rpc_add_invoice = λ value memo n. (ok (bytes "lnbc1", sum256 (repeat 32 n)), suc n);
  rpc_lookup_invoice = λ hash n. (ok (record { state = settled; r_preimage = [] }), n);
  rand_read = λ k n. (ok (repeat k n), suc n);
}

abbrev pub lightning : Verifier Plain ℕ MemStore
lightning = record {
  lib = plain_lib;
  services = node;
  st = mem_store;
  root_key = repeat 32 1;
  credential_key = repeat 32 2;
}

abbrev pub fresh_world : World ℕ MemStore
fresh_world = record { env = 7; store = new_mem_store }

-- The preimage of invoice 7, its payment hash, and the macaroon over it.
abbrev pub preimage : Bytes
preimage = repeat 32 7

abbrev pub hash : Bytes
hash = sum256 preimage

abbrev pub paid_macaroon : Plain
paid_macaroon = record { signature = repeat 32 1; ident = Hex.encode hash }

abbrev pub raw_macaroon : Bytes
raw_macaroon = Hex.encode (repeat 32 1) ++ (b':' ∷ Hex.encode (Hex.encode hash))

abbrev pub token : Bytes
token = format raw_macaroon preimage

-- A limiter that lets `n` more requests through.
abbrev pub counting : RateLib ℕ ℕ
counting = record {
  new_limiter = λ rate burst. rate;
  allow = λ now n. elim n [ zero ↦ (false, 0) | suc k ↦ (true, k) ];
}

abbrev pub route : Route
route = record {
  path_prefix = bytes "/get";
  price_sats = pos 10;
  upstream = bytes "http://upstream";
}

abbrev pub curve : CurveConfig
curve = record {
  floor_toll_sats = pos 10;
  anonymous_cap = pos 5;
  escalation_slope = pos 10;
  enrollment_stake_sats = pos 100_000;
}

abbrev pub metering : Metering (World ℕ MemStore) MemPrincipalStore
metering = record {
  curve = curve;
  cred_issuer = lightning_issuer lightning;
  principals = mem_principals;
}

abbrev pub handler :
    Option (Metering (World ℕ MemStore) MemPrincipalStore)
    → Handler (World ℕ MemStore) MemPrincipalStore ℕ ℕ
handler m = record {
  verifier = lightning_verifier lightning;
  routes = route ∷ [];
  rate = counting;
  limit_rps = 1;
  limit_burst = pos 1;
  metering = m;
  exchange = λ upstream r log. record {
    early = [];
    reply = some (record {
      code = 200;
      header = ("Access-Control-Allow-Origin", bytes "http://a") ∷ [];
      content = bytes "body";
    });
  };
}

abbrev pub start : State (World ℕ MemStore) MemPrincipalStore ℕ
start = record {
  backend = fresh_world;
  limiters = none;
  anon_counts = [];
  pending_enrollments = [];
  principal_state = [];
  forwards = [];
}

-- GET /get with an Authorization header.
abbrev pub get_with : Bytes → Request
get_with authorization = record {
  method = bytes "GET";
  path = bytes "/get";
  remote_addr = bytes "10.0.0.7:4711";
  header = ("Authorization", authorization) ∷ [];
  query = [];
  price = none;
}

abbrev pub paid_request : Request
paid_request = get_with (bytes "L402 " ++ token)
