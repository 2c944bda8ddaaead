-- ===== src/Startup/Paid.antt =====
-- main of cmd/proxy/main.go as a whole: what it serves sends on nothing that was not paid for.
use blockade.Prelude.{
  Option-cases, ok, Result-cases, Bytes, ◌≡◌, refl, inl, inr, Bool, Option, none, some, List, arith,
}
use blockade.Prelude.Int.{ℤ}
use blockade.Config.{Config, LndConfig, BitcoindConfig, load}
use blockade.Config.Validity.{OneBackend, load_iff}
use blockade.Store.Sqlite.Tables.{SqlLaws}
use blockade.Lightning.Dial as Dial
use blockade.Lightning.Verifier as Lightning
use blockade.Lightning.Interface.{lightning_verifier, lightning_issuer}
use blockade.Onchain.Verifier as Onchain
use blockade.Startup.Life.{Happening}
use blockade.Startup.Backing.{Stores, any_store, choose_stores}
use blockade.Startup.Accounts.{
  Balanced, build-Keeps, new_verifier_store, served_lightning, served_bitcoind,
}
use blockade.Startup.Main.{no_backend}
use blockade.Startup.{
  Machine, Started, with_lightning, with_bitcoind, build, start_lightning, start_bitcoind,
  bitcoin_verifier, start, main,
}

module _ {D M E J G B N F : Type 0} (mc : Machine D M E J G B N F) (used : D → Bytes → Bool)
    (row : D → Bytes → Option (ℤ × ℤ)) (sql : SqlLaws mc.db used row) where
  lightning-Balanced :
      (cfg : Config F) (l : LndConfig) (stores : Stores D) (st : Started mc) (xs : List Happening)
      → start_lightning mc cfg l stores ≡ ok st
      → Balanced mc used row sql xs st
  unfolding start_lightning
  lightning-Balanced cfg l stores st xs started =
      elim (Result-cases (Dial.new_client mc.dialer l.host l.tls_cert_path l.macaroon_path)) [
        | inr (x, d) ↦ absurd (ground (arith, d))
        | inl (sv, d) ↦
            elim (Result-cases
              (Lightning.new_verifier mc.lib sv (any_store mc.db) mc.lnd_state).0) [
                | inr (x, n) ↦ absurd (ground (arith, d, n))
                | inl (v, n) ↦
                    let backend : Lightning.World E (Stores D) = record {
                      env = (Lightning.new_verifier mc.lib sv (any_store mc.db) mc.lnd_state).1;
                      store = stores;
                    } in
                    elim (Result-cases
                      (build mc cfg (lightning_verifier v) (some (lightning_issuer v)) backend)) [
                        | inr (x, b) ↦ absurd (ground (arith, d, n, b))
                        | inl ((h, s), b) ↦
                            let same : with_lightning h s ≡ st = ground (arith, d, n, b) in
                            rw (← same) (
                              served_lightning mc used row sql v h s
                                (new_verifier_store mc used row sql sv mc.lnd_state v n)
                                (build-Keeps mc cfg (lightning_verifier v)
                                  (some (lightning_issuer v)) backend h s b)
                                xs)
                      ]
              ]
      ]

  bitcoind-Balanced :
      (cfg : Config F) (b : BitcoindConfig) (stores : Stores D) (st : Started mc)
      (xs : List Happening)
      → start_bitcoind mc cfg b stores ≡ ok st
      → Balanced mc used row sql xs st
  unfolding start_bitcoind
  bitcoind-Balanced cfg b stores st xs started =
      let v = bitcoin_verifier mc b in
      let backend : Onchain.World B (Stores D) = record {
        env = mc.bitcoind_state;
        store = stores;
      } in
      elim (Result-cases (build mc cfg (Onchain.onchain_verifier v) none backend)) [
        | inr (x, e) ↦ absurd (ground (arith, e))
        | inl ((h, s), e) ↦
            let same : with_bitcoind v h s ≡ st = ground (arith, e) in
            rw (← same) (
              served_bitcoind mc used row sql v h s refl refl
                (build-Keeps mc cfg (Onchain.onchain_verifier v) none backend h s e) xs)
      ]

  start-Balanced :
      (cfg : Config F) (st : Started mc) (xs : List Happening)
      → OneBackend cfg.lnd cfg.bitcoind
      → start mc cfg ≡ ok st
      → Balanced mc used row sql xs st
  unfolding start
  start-Balanced cfg st xs backend started = elim (Result-cases (choose_stores mc.db cfg.db_path)) [
    | inr (x, c) ↦ absurd (ground (arith, c))
    | inl (stores, c) ↦ elim (Option-cases cfg.lnd) [
      | inr (l, e) ↦ lightning-Balanced cfg l stores st xs (ground (arith, c, e))
      | inl e ↦ elim (Option-cases cfg.bitcoind) [
        | inr (b, f) ↦ bitcoind-Balanced cfg b stores st xs (ground (arith, c, e, f))
        | inl f ↦ absurd (no_backend cfg.lnd cfg.bitcoind e f backend)
      ]
    ]
  ]

  -- If main comes to serve, then it serves one of the backends, and after any run of requests and
  -- cleanups, the on-chain verifier's too, as many different payments, all unspent before the run, were spent as requests were
  -- sent on, whatever the configuration, lnd, bitcoind and the upstreams do. The database engine
  -- gives its statements SQL's meaning; requests run one after another.
  pub main-Balanced :
      (path : Bytes) (st : Started mc) (xs : List Happening)
      → main mc path ≡ ok st
      → Balanced mc used row sql xs st
  unfolding main
  main-Balanced path st xs served =
      elim (Result-cases (load mc.le_zero mc.dialer.read_file mc.unmarshal_yaml path)) [
        | inr (x, e) ↦ absurd (ground (arith, e))
        | inl (cfg, e) ↦
            let (text, readable, decodes, valid) =
              (load_iff mc.le_zero mc.dialer.read_file mc.unmarshal_yaml path cfg).0 e in
            start-Balanced cfg st xs valid.backend (ground (arith, e))
      ]
