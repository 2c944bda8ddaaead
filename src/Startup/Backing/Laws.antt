-- ===== src/Startup/Backing/Laws.antt =====
-- The stores of cmd/proxy/main.go against the contracts of store.Store and store.PendingStore, in memory
-- and in a file.
use blockade.Prelude.{if◌then◌else◌, ◌==◌, Bytes, ℕ, ◌≤◌, ◌<◌, ◌≡◌, Bool, ◌||◌, Option, none, some}
use blockade.Prelude.Int.{ℤ}
use blockade.Store.Types.{Outcome, PendingEntry, StoreLaws, PendingLaws}
use blockade.Store.Mem as Mem
use blockade.Store.Mem.Laws as MemLaws
use blockade.Store.Sqlite
use blockade.Store.Sqlite.{Engine}
use blockade.Store.Sqlite.Tables.{SqlLaws}
use blockade.Store.Sqlite.Contract as File
use blockade.Startup.Backing.{Stores, in_memory, in_file, any_store, any_pending}

module _ {D : Type 0} (db : Engine D) (used : D → Bytes → Bool) (row : D → Bytes → Option (ℤ × ℤ))
    (sql : SqlLaws db used row) where
  abbrev pub any_spent : Stores D → Bytes → Bool
  any_spent (in_memory s) k = MemLaws.spent s k
  any_spent (in_file d) k = used d k

  abbrev pub any_entry : Stores D → Bytes → Option PendingEntry
  any_entry (in_memory s) k = MemLaws.entry s k
  any_entry (in_file d) k = File.entry db used row sql d k

  -- The expiry that is kept: in a file, whole seconds.
  abbrev pub any_stored : Stores D → ℕ → ℕ
  any_stored (in_memory s) t = t
  any_stored (in_file d) t = File.whole_seconds t

  abbrev mem : StoreLaws Mem.mem_store MemLaws.spent
  mem = MemLaws.mem_store-StoreLaws

  abbrev file : StoreLaws (Sqlite.sqlite_store db) used
  file = File.sqlite_store-StoreLaws db used row sql

  pub any_store-StoreLaws : StoreLaws (any_store db) any_spent
  any_store-StoreLaws = record {
    is_used_result = reads;
    is_used_keeps = keeps;
    mark_used_result = marks;
  }
    where
      reads :
          (s : Stores D) (k : Bytes)
          → Outcome ((any_store db).is_used k s).0 (any_spent s k) (Unit {0}) (Unit {0})
      reads (in_memory s) k = mem.is_used_result s k
      reads (in_file d) k = file.is_used_result d k

      keeps :
          (s : Stores D) (k j : Bytes) → any_spent ((any_store db).is_used k s).1 j ≡ any_spent s j
      keeps (in_memory s) k j = mem.is_used_keeps s k j
      keeps (in_file d) k j = file.is_used_keeps d k j

      marks :
          (s : Stores D) (now : ℕ) (k j : Bytes)
          → Outcome
              ((any_store db).mark_used now k s).0
              tt
              (any_spent ((any_store db).mark_used now k s).1 j ≡ (k == j || any_spent s j))
              (any_spent ((any_store db).mark_used now k s).1 j ≡ any_spent s j)
      marks (in_memory s) now k j = mem.mark_used_result s now k j
      marks (in_file d) now k j = file.mark_used_result d now k j

  abbrev mem_ps : PendingLaws Mem.mem_store Mem.mem_pending (λ s t. t) MemLaws.entry MemLaws.spent
  mem_ps = MemLaws.mem_store-PendingLaws

  abbrev file_ps :
      PendingLaws
        (Sqlite.sqlite_store db)
        (Sqlite.sqlite_pending db)
        (λ d. File.whole_seconds)
        (File.entry db used row sql)
        used
  file_ps = File.sqlite_store-PendingLaws db used row sql

  module _ (k j : Bytes) where
    adds :
        (s : Stores D) (sats : ℤ) (t : ℕ)
        → Outcome
            ((any_pending db).add_pending k sats t s).0
            tt
            (any_entry ((any_pending db).add_pending k sats t s).1 j ≡ (
              if k == j
              then some (record { sats = sats; expires_at = any_stored s t })
              else any_entry s j))
            (any_entry ((any_pending db).add_pending k sats t s).1 j ≡ any_entry s j)
    adds (in_memory s) sats t = mem_ps.add_result s k j sats t
    adds (in_file d) sats t = file_ps.add_result d k j sats t

    deletes :
        (s : Stores D)
        → Outcome
            ((any_pending db).delete_pending k s).0
            tt
            (any_entry ((any_pending db).delete_pending k s).1 j
              ≡ (if k == j then none else any_entry s j))
            (any_entry ((any_pending db).delete_pending k s).1 j ≡ any_entry s j)
    deletes (in_memory s) = mem_ps.delete_result s k j
    deletes (in_file d) = file_ps.delete_result d k j

    get_keeps : (s : Stores D) → any_entry ((any_pending db).get_pending k s).1 j ≡ any_entry s j
    get_keeps (in_memory s) = mem_ps.get_keeps s k j
    get_keeps (in_file d) = file_ps.get_keeps d k j

    add_spent :
        (s : Stores D) (sats : ℤ) (t : ℕ)
        → any_spent ((any_pending db).add_pending k sats t s).1 j ≡ any_spent s j
    add_spent (in_memory s) sats t = mem_ps.add_spent s k j sats t
    add_spent (in_file d) sats t = file_ps.add_spent d k j sats t

    get_spent : (s : Stores D) → any_spent ((any_pending db).get_pending k s).1 j ≡ any_spent s j
    get_spent (in_memory s) = mem_ps.get_spent s k j
    get_spent (in_file d) = file_ps.get_spent d k j

    delete_spent :
        (s : Stores D) → any_spent ((any_pending db).delete_pending k s).1 j ≡ any_spent s j
    delete_spent (in_memory s) = mem_ps.delete_spent s k j
    delete_spent (in_file d) = file_ps.delete_spent d k j

    used_entry : (s : Stores D) → any_entry ((any_store db).is_used k s).1 j ≡ any_entry s j
    used_entry (in_memory s) = mem_ps.is_used_entry s k j
    used_entry (in_file d) = file_ps.is_used_entry d k j

    marked_entry :
        (s : Stores D) (now : ℕ) → any_entry ((any_store db).mark_used now k s).1 j ≡ any_entry s j
    marked_entry (in_memory s) now = mem_ps.mark_used_entry s now k j
    marked_entry (in_file d) now = file_ps.mark_used_entry d now k j

  gets :
      (s : Stores D) (k : Bytes)
      → Outcome ((any_pending db).get_pending k s).0 (any_entry s k) (Unit {0}) (Unit {0})
  gets (in_memory s) k = mem_ps.get_result s k
  gets (in_file d) k = file_ps.get_result d k

  prune_keeps :
      (s : Stores D) (now : ℕ) (k : Bytes) (e : PendingEntry)
      → any_entry s k ≡ some e
      → 1 ≤ any_stored s now
      → any_stored s now ≤ e.expires_at
      → any_entry ((any_pending db).prune_expired_pending now s).1 k ≡ some e
  prune_keeps (in_memory s) now k e h p late = mem_ps.prune_keeps s now k e h p late
  prune_keeps (in_file d) now k e h p late = file_ps.prune_keeps d now k e h p late

  prune_removes :
      (s : Stores D) (now : ℕ) (k : Bytes) (e : PendingEntry)
      → any_entry s k ≡ some e
      → e.expires_at < any_stored s now
      → Outcome
          ((any_pending db).prune_expired_pending now s).0
          tt
          (any_entry ((any_pending db).prune_expired_pending now s).1 k ≡ none)
          (any_entry ((any_pending db).prune_expired_pending now s).1 k ≡ some e)
  prune_removes (in_memory s) now k e h early = mem_ps.prune_removes s now k e h early
  prune_removes (in_file d) now k e h early = file_ps.prune_removes d now k e h early

  prune_adds_nothing :
      (s : Stores D) (now : ℕ) (k : Bytes)
      → any_entry s k ≡ none
      → any_entry ((any_pending db).prune_expired_pending now s).1 k ≡ none
  prune_adds_nothing (in_memory s) now k h = mem_ps.prune_adds_nothing s now k h
  prune_adds_nothing (in_file d) now k h = file_ps.prune_adds_nothing d now k h

  prune_spent :
      (s : Stores D) (now : ℕ) (j : Bytes)
      → any_spent ((any_pending db).prune_expired_pending now s).1 j ≡ any_spent s j
  prune_spent (in_memory s) now j = mem_ps.prune_spent s now j
  prune_spent (in_file d) now j = file_ps.prune_spent d now j

  pub any_store-PendingLaws :
      PendingLaws (any_store db) (any_pending db) any_stored any_entry any_spent
  any_store-PendingLaws = record {
    add_result = λ s k j sats t. adds k j s sats t;
    get_result = gets;
    get_keeps = λ s k j. get_keeps k j s;
    delete_result = λ s k j. deletes k j s;
    prune_keeps = prune_keeps;
    prune_removes = prune_removes;
    prune_adds_nothing = prune_adds_nothing;
    add_spent = λ s k j sats t. add_spent k j s sats t;
    get_spent = λ s k j. get_spent k j s;
    delete_spent = λ s k j. delete_spent k j s;
    prune_spent = prune_spent;
    is_used_entry = λ s k j. used_entry k j s;
    mark_used_entry = λ s now k j. marked_entry k j s now;
  }
