-- ===== src/Store/Sqlite/Contract.antt =====
-- SQLiteStore of internal/store/sqlite.go against the contracts of Store and PendingStore.
use blockade.Prelude.{
  if◌then◌else◌, Option-cases, ◌==◌, Bytes, ℕ, ◌≤◌, ◌<◌, ◌≡◌, inl, inr, Bool, true, false, Option,
  none, some, [], ◌∷◌, arith,
}
use blockade.Prelude.Int.{ℤ, pos, negsuc, leb_ℤ}
use mathlib.Core.Option
use blockade.Store.Types.{Outcome, PendingEntry, StoreLaws, PendingLaws}
use blockade.Store.Sqlite.{
  Engine, text_value, integer_value, insert_pending, delete_from_pending, unix, from_unix, to_entry,
  is_used, mark_used, add_pending, get_pending, delete_pending, prune_expired_pending, sqlite_store,
  sqlite_pending,
}
use blockade.Store.Sqlite.Tables.{SqlLaws}

-- The expiry that is kept: whole seconds.
abbrev pub whole_seconds : ℕ → ℕ
whole_seconds t = from_unix (unix t)

module _ {D : Type 0} (db : Engine D) (used : D → Bytes → Bool) (row : D → Bytes → Option (ℤ × ℤ))
    (sql : SqlLaws db used row) where
  abbrev pub entry : D → Bytes → Option PendingEntry
  entry d k = Option.map to_entry (row d k)

  -- SQLiteStore keeps the contract of Store, if the engine gives its statements SQL's meaning.
  pub sqlite_store-StoreLaws : StoreLaws (sqlite_store db) used
  unfolding is_used mark_used
  sqlite_store-StoreLaws = record {
    is_used_result = λ d k. ground (arith, sql.count_result d k);
    is_used_keeps = λ d k j. ground (arith, sql.count_keeps d k j);
    mark_used_result = λ d now k j. ground (arith, sql.insert_or_ignore d k j (unix now));
  }

  add-entry :
      (d : D) (k j : Bytes) (sats : ℤ) (t : ℕ) (o : Option (ℤ × ℤ))
      → o ≡ (if k == j then some (sats, unix t) else row d j)
      → Option.map to_entry o ≡ (
          if k == j then some (record { sats = sats; expires_at = whole_seconds t }) else entry d j)
  add-entry d k j sats t o e = ground arith

  delete-entry :
      (d : D) (k j : Bytes) (o : Option (ℤ × ℤ))
      → o ≡ (if k == j then none else row d j)
      → Option.map to_entry o ≡ (if k == j then none else entry d j)
  delete-entry d k j o e = ground arith

  -- A row whose expiry is not before the cutoff's second is not below the cutoff.
  kept :
      (now : ℕ) (n : ℤ)
      → 1 ≤ whole_seconds now
      → whole_seconds now ≤ from_unix n
      → leb_ℤ (unix now) n ≡ true
  unfolding unix from_unix
  kept now (pos n) p h = ground arith
  kept now (negsuc n) p h = absurd (omega arith)

  row-kept :
      (d : D) (now : ℕ) (k : Bytes) (e : PendingEntry)
      → entry d k ≡ some e
      → 1 ≤ whole_seconds now
      → whole_seconds now ≤ e.expires_at
      → entry (prune_expired_pending db now d).1 k ≡ some e
  unfolding prune_expired_pending
  row-kept d now k e h p late = elim (Option-cases (row d k)) [
    | inl q ↦ absurd (ground (arith, q))
    | inr ((sats, n), q) ↦
        ground (arith, q, kept now n p (ground (arith, q)), sql.delete_below d (unix now) k)
  ]

  -- A row that expired before the cutoff's second is below the cutoff.
  dropped : (now : ℕ) (n : ℤ) → from_unix n < whole_seconds now → leb_ℤ (unix now) n ≡ false
  unfolding unix from_unix
  dropped now (pos n) h = ground arith
  dropped now (negsuc n) h = ground arith

  row-dropped :
      (d : D) (now : ℕ) (k : Bytes) (e : PendingEntry)
      → entry d k ≡ some e
      → e.expires_at < whole_seconds now
      → Outcome
          (prune_expired_pending db now d).0
          tt
          (entry (prune_expired_pending db now d).1 k ≡ none)
          (entry (prune_expired_pending db now d).1 k ≡ some e)
  unfolding prune_expired_pending
  row-dropped d now k e h early = elim (Option-cases (row d k)) [
    | inl q ↦ absurd (ground (arith, q))
    | inr ((sats, n), q) ↦
        ground (arith, q, dropped now n (ground (arith, q)), sql.delete_below d (unix now) k)
  ]

  -- SQLiteStore keeps the contract of PendingStore with all times cut to whole seconds, those of the
  -- expiries and that of PruneExpiredPending, which removes the entries whose second is before its
  -- own, and from 1 s after 1970 on no others. The engine gives its statements SQL's meaning.
  pub sqlite_store-PendingLaws :
      PendingLaws (sqlite_store db) (sqlite_pending db) (λ d. whole_seconds) entry used
  unfolding is_used mark_used add_pending get_pending delete_pending prune_expired_pending
  sqlite_store-PendingLaws = record {
    add_result = λ d k j sats t. ground (
      arith,
      sql.insert_or_replace d k j sats (unix t),
      add-entry d k j sats t (
          row
            (db.exec insert_pending
              (text_value k ∷ integer_value sats ∷ integer_value (unix t) ∷ []) d).1
            j),
    );
    get_result = λ d k. ground (arith, sql.select_result d k);
    get_keeps = λ d k j. ground (arith, sql.select_keeps d k j);
    delete_result = λ d k j. ground (
      arith,
      sql.delete_key d k j,
      delete-entry d k j (row (db.exec delete_from_pending (text_value k ∷ []) d).1 j),
    );
    prune_keeps = row-kept;
    prune_removes = row-dropped;
    prune_adds_nothing = λ d now k h. ground (arith, sql.delete_below d (unix now) k);
    add_spent = λ d k j sats t. ground (arith, sql.insert_or_replace d k j sats (unix t));
    get_spent = λ d k j. ground (arith, sql.select_keeps d k j);
    delete_spent = λ d k j. ground (arith, sql.delete_key d k j);
    prune_spent = λ d now j. ground (arith, sql.delete_below d (unix now) j);
    is_used_entry = λ d k j. ground (arith, sql.count_keeps d k j);
    mark_used_entry = λ d now k j. ground (arith, sql.insert_or_ignore d k j (unix now));
  }
