-- ===== src/Startup/Backing.antt =====
-- The store.Store and store.PendingStore of cmd/proxy/main.go: in memory or in a file.
pub mod Laws
use blockade.Prelude.{if◌then◌else◌, Result, ok, ◌>>=◌, context, Go, ◌==◌, Bytes, []}
use blockade.Store.Types.{Store, PendingStore}
use blockade.Store.Mem as Mem
use blockade.Store.Sqlite as Sqlite

-- The dynamic type of the interface values.
pub data Stores (D : Type 0) : Type 0 where
  in_memory : Mem.MemStore → Stores D
  in_file : D → Stores D

module _ {D : Type 0} (db : Sqlite.Engine D) where
  abbrev with_mem : {A : Type 0} → Go Mem.MemStore A → Go D A → Go (Stores D) A
  with_mem f g (in_memory s) = let (r, s') = f s in (r, in_memory s')
  with_mem f g (in_file d) = let (r, d') = g d in (r, in_file d')

  abbrev pub any_store : Store (Stores D)
  any_store = record {
    is_used = λ k. with_mem (Mem.is_used k) (Sqlite.is_used db k);
    mark_used = λ now k. with_mem (Mem.mark_used now k) (Sqlite.mark_used db now k);
  }

  abbrev pub any_pending : PendingStore (Stores D)
  any_pending = record {
    add_pending = λ k sats t. with_mem (Mem.add_pending k sats t) (Sqlite.add_pending db k sats t);
    get_pending = λ k. with_mem (Mem.get_pending k) (Sqlite.get_pending db k);
    delete_pending = λ k. with_mem (Mem.delete_pending k) (Sqlite.delete_pending db k);
    prune_expired_pending =
        λ t. with_mem (Mem.prune_expired_pending t) (Sqlite.prune_expired_pending db t);
  }

  -- `if cfg.DBPath != ""`
  unfoldable pub choose_stores : Bytes → Result (Stores D)
  unfolding Sqlite.open_sqlite
  choose_stores path =
      if path == []
      then ok (in_memory Mem.new_mem_store)
      else do d ← context "open store" (Sqlite.open_sqlite db path); ok (in_file d)
