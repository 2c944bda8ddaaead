-- ===== src/Onchain/Elsewhere.antt =====
-- What calls for other addresses and challenges (internal/payment/onchain/verifier.go) do to the pending
-- entry of an address.
use blockade.Prelude.{
  ok, Result-cases, ◌==◌, Bytes, ℕ, ◌+◌, ◌≡◌, refl, inl, inr, Bool, false, Option, none, some,
  arith,
}
use blockade.Std.Http.{Request, Writer}
use blockade.Price.{positive_price}
use blockade.Store.Types.{PendingEntry, PendingLaws}
use blockade.Onchain.Client.{get_new_address, get_received_sats}
use blockade.Onchain.Verifier.{
  Verifier, World, pending_ttl, settle, expire, check_received, check_entry, verify_pending,
  issue_challenge,
}

module _ {J F E S : Type 0} (v : Verifier J F E S) (stored : S → ℕ → ℕ)
    (entry : S → Bytes → Option PendingEntry) (spent : S → Bytes → Bool)
    (pending : PendingLaws v.st v.ps stored entry spent) (addr : Bytes) where
  module _ (other : Bytes) (differs : (other == addr) ≡ false) where
    delete-entry : (s : S) → entry (v.ps.delete_pending other s).1 addr ≡ entry s addr
    delete-entry s = ground (arith, pending.delete_result s other addr, differs)

    settle-entry :
        (now : ℕ) (w : World E S) → entry (settle v now other w).1.store addr ≡ entry w.store addr
    unfolding settle
    settle-entry now w = ground (
      arith,
      delete-entry w.store,
      pending.mark_used_entry (v.ps.delete_pending other w.store).1 now other addr,
    )

    check_entry-entry :
        (now : ℕ) (o : Option PendingEntry) (w : World E S)
        → entry (check_entry v now other o w).1.store addr ≡ entry w.store addr
    unfolding check_entry check_received expire
    check_entry-entry now none w = refl
    check_entry-entry now (some e) w = ground (
      arith,
      delete-entry w.store,
      settle-entry now (record w { env = (get_received_sats v.btc other v.min_conf w.env).1 }),
    )

    pub verify_pending-entry :
        (now : ℕ) (w : World E S)
        → entry (verify_pending v now other w).1.store addr ≡ entry w.store addr
    unfolding verify_pending
    verify_pending-entry now w = ground (
      arith,
      pending.get_keeps w.store other addr,
      pending.get_result w.store other,
      check_entry-entry now (entry w.store other)
          (record w { store = (v.ps.get_pending other w.store).1 }),
    )

  -- A challenge adds another address, if bitcoind does not give this one out again.
  pub issue_challenge-entry :
      ((e : E) (a : Bytes) → (get_new_address v.btc e).0 ≡ ok a → (a == addr) ≡ false)
      → (now : ℕ) (r : Request) (w : Writer) (world : World E S)
      → entry (issue_challenge v now r w world).1.store addr ≡ entry world.store addr
  unfolding issue_challenge
  issue_challenge-entry never_again now r w world = elim (Result-cases (positive_price r)) [
    | inr (e, h) ↦ ground (arith, h)
    | inl (price, h) ↦ elim (Result-cases (get_new_address v.btc world.env).0) [
      | inr (e, k) ↦ ground (arith, h, k)
      | inl (a, k) ↦ ground (
        arith,
        h,
        k,
        never_again world.env a k,
        pending.add_result world.store a addr price (now + pending_ttl),
      )
    ]
  ]
