-- ===== src/Examples/Starting.antt =====
-- The start-up on a concrete machine and configuration.
use blockade.Prelude.{eqb, ok, Bytes, bytes, ℕ, ◌≡◌, ◌↔◌, true, none, some, [], ◌∷◌}
use blockade.Prelude.Int.{ℤ, pos}
use blockade.Config.{Config, load}
use blockade.Config.Validity.{IsValid, load_iff}
use blockade.Lightning.Dial.{
  TransportCredentials, PerRpcCredentials, new_client, Connects, new_client_iff,
}
use blockade.Startup.{Machine}
use blockade.Startup.Serves.{Serves}
use blockade.Examples.Macaroons.{Plain, plain_lib}
use blockade.Examples.Fixtures.{curve, node, counting}
use blockade.Examples.Tables.{Rows, tables}
use blockade.Examples.Addresses.{network}

-- Floats are integers.
abbrev settings : Config ℕ
settings = record {
  listen_addr = bytes ":8080";
  db_path = [];
  lnd = some (record {
    host = bytes "localhost:10009";
    tls_cert_path = bytes "tls.cert";
    macaroon_path = bytes "admin.macaroon";
  });
  bitcoind = none;
  rate_limit = some (record { requests_per_second = 5; burst = pos 10 });
  curve = some curve;
  routes =
      record { path_prefix = bytes "/get"; upstream = bytes "http://u"; price_sats = pos 10 } ∷ [];
}

abbrev pub machine : Machine Rows Plain ℕ Bytes ℤ ℕ ℕ ℕ
machine = record {
  db = tables;
  lib = plain_lib;
  dialer = record {
    read_file = λ path. ok (bytes "listen_addr: :8080");
    has_certs = λ cert. true;
    grpc_new_client = λ host tls creds. ok node;
  };
  lnd_state = 0;
  net = network;
  bitcoind_state = 0;
  unmarshal_yaml = λ text. ok settings;
  le_zero = λ x. eqb x 0;
  parse = λ u. ok u;
  no_rate = 0;
  rate = counting;
  exchange = λ upstream r log. record { early = []; reply = none };
}

load_iff_example :
    (load (λ x. eqb x 0) machine.dialer.read_file machine.unmarshal_yaml (bytes "config.yaml")
      ≡ ok settings)
    ↔ ((text : Bytes) × (machine.dialer.read_file (bytes "config.yaml") ≡ ok text)
        × (machine.unmarshal_yaml text ≡ ok settings)
        × IsValid (λ x. eqb x 0) settings)
load_iff_example =
    load_iff (λ x. eqb x 0) machine.dialer.read_file machine.unmarshal_yaml (bytes "config.yaml")
      settings

new_client_iff_example :
    (new_client machine.dialer (bytes "lnd:10009") (bytes "tls.cert") (bytes "admin.macaroon")
      ≡ ok node)
    ↔ ((cert : Bytes) × (mac : Bytes) × (tls : TransportCredentials) × (creds : PerRpcCredentials)
        × Connects machine.dialer
            (bytes "lnd:10009")
            (bytes "tls.cert")
            (bytes "admin.macaroon")
            cert
            mac
            tls
            creds
            node)
new_client_iff_example =
    new_client_iff machine.dialer (bytes "lnd:10009") (bytes "tls.cert") (bytes "admin.macaroon")
      node
