-- ===== src/Store/Mem.antt =====
-- MemStore of internal/store/store.go. Each method is one critical section of its mutex.
pub mod Laws
use blockade.Prelude.{
  ltb, ok, Go, Bytes, Map, lookup, insert, delete, retain, ℕ, Bool, true, false, not, Option, none,
  some, [],
}
use blockade.Prelude.Int.{ℤ}
use blockade.Store.Types.{PendingEntry, Store, PendingStore}

pub record MemStore : Type 0 where
  pub used : Map (Unit {0})
  pub pending : Map PendingEntry

abbrev pub new_mem_store : MemStore
new_mem_store = record { used = []; pending = [] }

abbrev is_some {ℓ} : {A : Type ℓ} → Option A → Bool
is_some none = false
is_some (some a) = true

unfoldable pub is_used : Bytes → Go MemStore Bool
is_used key s = (ok (is_some (lookup key s.used)), s)

unfoldable pub mark_used : ℕ → Bytes → Go MemStore (Unit {0})
mark_used now key s = (ok tt, record s { used = insert key tt s.used })

unfoldable pub add_pending : Bytes → ℤ → ℕ → Go MemStore (Unit {0})
add_pending addr sats expires_at s = (
  ok tt,
  record s { pending = insert addr (record { sats = sats; expires_at = expires_at }) s.pending },
)

unfoldable pub get_pending : Bytes → Go MemStore (Option PendingEntry)
get_pending addr s = (ok (lookup addr s.pending), s)

unfoldable pub delete_pending : Bytes → Go MemStore (Unit {0})
delete_pending addr s = (ok tt, record s { pending = delete addr s.pending })

-- before.After(e.ExpiresAt) removes the entry
unfoldable pub prune_expired_pending : ℕ → Go MemStore (Unit {0})
prune_expired_pending before s =
    (ok tt, record s { pending = retain (λ e. not (ltb e.expires_at before)) s.pending })

abbrev pub mem_store : Store MemStore
mem_store = record { is_used = is_used; mark_used = mark_used }

abbrev pub mem_pending : PendingStore MemStore
mem_pending = record {
  add_pending = add_pending;
  get_pending = get_pending;
  delete_pending = delete_pending;
  prune_expired_pending = prune_expired_pending;
}
