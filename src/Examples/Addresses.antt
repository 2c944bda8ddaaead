-- ===== src/Examples/Addresses.antt =====
-- The on-chain backend on a concrete bitcoind: an address that was given out and paid in full.
use blockade.Prelude.{
  All, ok, ◌==◌, Bytes, bytes, ℕ, suc, ◌≤◌, ◌≡◌, refl, ◌↔◌, true, false, none, some, List, [], ◌∷◌,
  arith,
}
use blockade.Prelude.Int.{ℤ, pos}
use blockade.Prelude.Schedules.{advance_at}
use blockade.Payment.{SingleUse}
use blockade.Std.Strings.{trim_space}
use blockade.Store.Types.{PendingEntry}
use blockade.Store.Mem.{MemStore, prune_expired_pending, new_mem_store, mem_store, mem_pending}
use blockade.Store.Mem.Laws.{spent, entry, mem_store-StoreLaws, mem_store-PendingLaws}
use blockade.Onchain.Client.{
  Net, Rpc, HttpRequest, RpcResponse, new_client, get_new_address, get_received_sats,
}
use blockade.Onchain.Calls.{Asks, Answered, get_received_sats-Asks, get_received_sats_iff}
use blockade.Std.Json.{text, number}
use blockade.Onchain.Verifier.{Verifier, World, verify_proof, onchain_verifier}
use blockade.Onchain.AntiReplay.{onchain-SingleUse, token_key, spent_in}
use blockade.Onchain.Race.{
  checking, answered, Turn, call, issue, check_other, verify_other, clean, accepted, elsewhere,
  race, advance,
}
use blockade.Onchain.Race.Once.{IsElsewhere, race_accepts_once}
use blockade.Std.Http.{Request, fresh_writer}
use blockade.Onchain.Verifier.{cleanup}
use blockade.Onchain.Accepts.{IsFunded, verify_proof-IsFunded}
use blockade.Examples.Computing.{computing}

-- A bitcoind that reports 25 satoshi for every address; JSON values and floats are texts and sats.
abbrev pub network : Net Bytes ℤ ℕ
network = record {
  parse_url = λ u. ok tt;
  exchange = λ r n. (ok (bytes "bc1q"), suc n);
  decode = λ body. ok (record { result = body; rpc_error = none });
  to_text = λ j. ok j;
  to_float = λ j. ok (pos 25);
  to_sats = λ x. x;
}

abbrev pub bitcoind : Rpc Bytes ℤ ℕ
bitcoind = new_client network (bytes "bitcoind:18443") (bytes "user") (bytes "pass")

abbrev pub onchain : Verifier Bytes ℤ ℕ MemStore
onchain = record { btc = bitcoind; min_conf = pos 1; st = mem_store; ps = mem_pending }

abbrev pub address : Bytes
address = bytes "bc1q"

abbrev pub awaiting : PendingEntry
awaiting = record { sats = pos 20; expires_at = 100 }

-- After the challenge that gave the address out.
abbrev pub world : World ℕ MemStore
world = record { env = 1; store = record new_mem_store { pending = (address, awaiting) ∷ [] } }

onchain-SingleUse_example : SingleUse token_key (spent_in spent) (onchain_verifier onchain)
onchain-SingleUse_example =
    onchain-SingleUse onchain (λ s t. t) entry spent mem_store-StoreLaws mem_store-PendingLaws

address_accepted : (verify_proof onchain 100 address world).0 ≡ ok true
unfolding computing
address_accepted = refl

verify_proof-IsFunded_example :
    (e : PendingEntry) × (sats : ℤ) × IsFunded onchain
      (λ s t. t)
      entry
      spent
      mem_store-StoreLaws
      mem_store-PendingLaws
      100
      (trim_space address)
      world
      e
      sats
verify_proof-IsFunded_example =
    verify_proof-IsFunded onchain (λ s t. t) entry spent mem_store-StoreLaws mem_store-PendingLaws
      100 address world address_accepted

address-IsFunded :
    IsFunded onchain
      (λ s t. t)
      entry
      spent
      mem_store-StoreLaws
      mem_store-PendingLaws
      100
      (trim_space address)
      world
      awaiting
      (pos 25)
unfolding computing
address-IsFunded = record {
  pends = refl;
  in_time = ground arith;
  reads = refl;
  enough = ground arith;
}

nonempty : (trim_space address == []) ≡ false
unfolding computing
nonempty = refl

unspent : spent world.store (trim_space address) ≡ false
unfolding computing
unspent = refl

-- A bitcoind that gives other addresses out from now on.
abbrev pub moved_on : Verifier Bytes ℤ ℕ MemStore
moved_on = record {
  btc =
      new_client (record network { to_text = λ j. ok (bytes "bc1p") }) (bytes "bitcoind:18443")
        (bytes "user") (bytes "pass");
  min_conf = pos 1;
  st = mem_store;
  ps = mem_pending;
}

abbrev pub other_request : Request
other_request = record {
  method = bytes "GET";
  path = bytes "/get";
  remote_addr = [];
  header = [];
  query = [];
  price = some (pos 5);
}

-- Two calls check, both wait for the lock, and take it in turn; others come in between.
abbrev schedule : List Turn
schedule =
    call 0 50
    ∷ issue 51 other_request fresh_writer
    ∷ call 1 50
    ∷ check_other (bytes "bc1p")
    ∷ call 1 60
    ∷ clean 65
    ∷ verify_other 66 (bytes "bc1p")
    ∷ call 0 70
    ∷ []

one_accepts :
    (race moved_on address schedule (checking ∷ checking ∷ []) world).0
    ≡ answered (ok false) ∷ answered (ok true) ∷ []
unfolding computing race elsewhere advance_at advance cleanup prune_expired_pending
one_accepts = refl

others : All (IsElsewhere moved_on address) schedule
unfolding computing
others = (tt, (tt, (tt, (refl, (tt, (tt, (refl, (tt, tt))))))))

never_again :
    (e : ℕ) (a : Bytes) → (get_new_address moved_on.btc e).0 ≡ ok a → (a == address) ≡ false
unfolding computing
never_again e a h = let same : bytes "bc1p" ≡ a = cc h in rw (← same) refl

race_accepts_once_example :
    accepted (race moved_on address schedule (checking ∷ checking ∷ []) world).0 ≤ 1
race_accepts_once_example =
    race_accepts_once moved_on address (λ s t. t) entry spent mem_store-StoreLaws
      mem_store-PendingLaws never_again schedule (checking ∷ checking ∷ []) world others refl

get_received_sats-Asks_example :
    let client = new_client network (bytes "bitcoind:18443") (bytes "user") (bytes "pass") in
    (r : HttpRequest) × Asks
      (bytes "bitcoind:18443")
      (bytes "user")
      (bytes "pass")
      address
      (pos 1)
      r
    × ((get_received_sats client address (pos 1) 7).1 ≡ (network.exchange r 7).1)
    × ((sats : ℤ)
        → (get_received_sats client address (pos 1) 7).0 ≡ ok sats
        → (body : Bytes) × (resp : RpcResponse Bytes) × (amount : ℤ) × ((network.exchange r 7).0
            ≡ ok body)
          × (network.decode body ≡ ok resp)
          × (network.to_float resp.result ≡ ok amount)
          × (sats ≡ network.to_sats amount))
get_received_sats-Asks_example =
    get_received_sats-Asks network (bytes "bitcoind:18443") (bytes "user") (bytes "pass") address
      (pos 1) 7 (ground arith) (ground arith) (ground arith) refl

get_received_sats_iff_example : ((get_received_sats bitcoind address (pos 1) 0).0 ≡ ok (pos 25)) ↔ (
    (amount : ℤ) × (body : Bytes) × (resp : RpcResponse Bytes) × (pos 25 ≡ amount)
    × Answered bitcoind "getreceivedbyaddress"
        (text address ∷ number (pos 1) ∷ [])
        network.to_float
        0
        amount
        body
        resp)
unfolding new_client
get_received_sats_iff_example = get_received_sats_iff bitcoind address (pos 1) 0 (pos 25)
