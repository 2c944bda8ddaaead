-- ===== src/Examples/Funding.antt =====
-- A purchase on chain at the concrete proxy.
use blockade.Prelude.{All, Bytes, bytes, ℕ, ◌≡◌, refl, false, none, some, [], ◌∷◌, ◌++◌, arith}
use blockade.Prelude.Int.{pos}
use blockade.Std.Strings.{trim_space}
use blockade.Std.Http.{Request, fresh_writer}
use blockade.Store.Mem.{MemStore, new_mem_store}
use blockade.Onchain.Client as Btc
use blockade.Onchain.Verifier.{World, auth_scheme, onchain_challenge, onchain_verifier}
use blockade.Onchain.Purchase.{onchain_handler}
use blockade.Proxy.Handler.{Handler, State}
use blockade.Proxy.Serve.{serve_http}
use blockade.Proxy.Visits.{Visits}
use blockade.Std.Strings.Laws.{IsDigit, number_from}
use blockade.Widget.{match_behind}
use blockade.Widget.Laws.{ends_with}
use blockade.Widget.Amounts.{onchain_challenge_readable}
use blockade.Examples.Computing.{computing}
use blockade.Examples.Addresses.{onchain, address}
use blockade.Examples.Fixtures.{route, counting, get_with}

abbrev base : Handler (World ℕ MemStore) (Unit {0}) ℕ ℕ
base = record {
  verifier = onchain_verifier onchain;
  routes = route ∷ [];
  rate = counting;
  limit_rps = 1;
  limit_burst = pos 1;
  metering = none;
  exchange = λ upstream r log. record { early = []; reply = none };
}

abbrev proxy : Handler (World ℕ MemStore) (Unit {0}) ℕ ℕ
proxy = onchain_handler onchain base

-- One request of the address is let through.
abbrev start : State (World ℕ MemStore) (Unit {0}) ℕ
start = record {
  backend = record { env = 0; store = new_mem_store };
  limiters = some [];
  anon_counts = [];
  pending_enrollments = [];
  principal_state = tt;
  forwards = [];
}

abbrev first_request : Request
first_request = get_with []

abbrev second_request : Request
second_request = get_with (auth_scheme ++ address)

abbrev challenged : State (World ℕ MemStore) (Unit {0}) ℕ
challenged = (serve_http proxy 0 first_request fresh_writer start).1

plain : trim_space address ≡ address
unfolding computing
plain = refl

apart : ends_with (bytes "amount_sats=") (bytes "bc1q") ≡ false
unfolding computing
apart = refl

onchain_challenge_readable_example :
    (match_behind (bytes "address=\"") (onchain_challenge (bytes "bc1q") (pos 5000))
      ≡ some (bytes "bc1q"))
    × ((amount : Bytes) × (match_behind
            (bytes "amount_sats=\"")
            (onchain_challenge (bytes "bc1q") (pos 5000))
          ≡ some amount)
        × All IsDigit amount
        × (number_from 0 amount ≡ 5000))
onchain_challenge_readable_example =
    onchain_challenge_readable (bytes "bc1q") 5000 (ground arith) (λ e. cc) apart
