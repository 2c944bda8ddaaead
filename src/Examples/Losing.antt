-- ===== src/Examples/Losing.antt =====
-- The on-chain backend with a store whose MarkUsed fails, and a bitcoind that gives other addresses out
-- from now on.
use blockade.Prelude.{
  All, Error, new, ok, err, ◌==◌, Bytes, ℕ, ◌≡◌, refl, ◌≢◌, inr, true, false, List, [], ◌∷◌, arith,
}
use blockade.Prelude.Int.{ℤ, pos}
use blockade.Std.Strings.{trim_space}
use blockade.Store.Types.{Store, StoreLaws, PendingLaws}
use blockade.Store.Mem.{MemStore, mem_store, mem_pending}
use blockade.Store.Mem.Laws.{
  spent, entry, mem_store-StoreLaws, mem_store-PendingLaws, mem_store-IsReliable,
  mem_store-IsReliablePending,
}
use blockade.Onchain.Verifier.{Verifier, World, verify_proof}
use blockade.Onchain.Client.{get_new_address}
use blockade.Onchain.Race.{checking, Turn, call, issue, clean, accepted, race}
use blockade.Onchain.Race.Once.{IsElsewhere}
use blockade.Std.Http.{fresh_writer}
use blockade.Onchain.Accepts.{IsFunded}
use blockade.Onchain.Lost.{paid_address_lost}
use blockade.Examples.Computing.{computing}
use blockade.Examples.Addresses.{moved_on, other_request, address, awaiting, world}

-- A disk that is full.
abbrev full_store : Store MemStore
full_store = record mem_store { mark_used = λ now k s. (err (new "database or disk is full"), s) }

full_store-StoreLaws : StoreLaws full_store spent
full_store-StoreLaws = record {
  is_used_result = mem_store-StoreLaws.is_used_result;
  is_used_keeps = mem_store-StoreLaws.is_used_keeps;
  mark_used_result = λ s now k j. inr (_, refl, refl);
}

full_store-PendingLaws : PendingLaws full_store mem_pending (λ s t. t) entry spent
full_store-PendingLaws = record {
  add_result = mem_store-PendingLaws.add_result;
  get_result = mem_store-PendingLaws.get_result;
  get_keeps = mem_store-PendingLaws.get_keeps;
  delete_result = mem_store-PendingLaws.delete_result;
  prune_keeps = mem_store-PendingLaws.prune_keeps;
  prune_removes = mem_store-PendingLaws.prune_removes;
  prune_adds_nothing = mem_store-PendingLaws.prune_adds_nothing;
  add_spent = mem_store-PendingLaws.add_spent;
  get_spent = mem_store-PendingLaws.get_spent;
  delete_spent = mem_store-PendingLaws.delete_spent;
  prune_spent = mem_store-PendingLaws.prune_spent;
  is_used_entry = mem_store-PendingLaws.is_used_entry;
  mark_used_entry = λ s now k j. refl;
}

abbrev onchain : Verifier Bytes ℤ ℕ MemStore
onchain = record { btc = moved_on.btc; min_conf = pos 1; st = full_store; ps = mem_pending }

address-IsFunded :
    IsFunded onchain
      (λ s t. t)
      entry
      spent
      full_store-StoreLaws
      full_store-PendingLaws
      100
      (trim_space address)
      world
      awaiting
      (pos 25)
unfolding computing
address-IsFunded = record {
  pends = refl;
  in_time = ground arith;
  reads = refl;
  enough = ground arith;
}

nonempty : (trim_space address == []) ≡ false
unfolding computing
nonempty = refl

unspent : spent world.store (trim_space address) ≡ false
unfolding computing
unspent = refl

never_again :
    (e : ℕ) (a : Bytes)
    → (get_new_address onchain.btc e).0 ≡ ok a
    → (a == trim_space address) ≡ false
unfolding computing
never_again e a h = ground (arith, h)

-- Another call for the address, among a challenge and the cleanup loop.
abbrev after : List Turn
after = issue 150 other_request fresh_writer ∷ call 0 160 ∷ clean 170 ∷ call 0 180 ∷ []

after-IsElsewhere : All (IsElsewhere onchain (trim_space address)) after
after-IsElsewhere = (tt, (tt, (tt, (tt, tt))))

paid_address_lost_example :
    let lost : World ℕ MemStore = record {
      env = 9;
      store = (verify_proof onchain 100 address world).1.store;
    } in
    let (calls, w) = race onchain (trim_space address) after (checking ∷ []) lost in
    ((x : Error) × ((verify_proof onchain 100 address world).0 ≡ err x))
    × (accepted calls ≡ 0)
    × ((verify_proof onchain 200 address w).0 ≢ ok true)
paid_address_lost_example =
    paid_address_lost onchain (λ s t. t) entry spent full_store-StoreLaws full_store-PendingLaws
      mem_store-IsReliablePending mem_store-IsReliable.is_used_succeeds 100 address awaiting
      (pos 25) world nonempty unspent address-IsFunded (λ s. (new "database or disk is full", refl))
      never_again 9 after (checking ∷ []) after-IsElsewhere refl 200
