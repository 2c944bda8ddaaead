-- ===== src/Store/Types.antt =====
-- internal/store/store.go: the interfaces Store and PendingStore, with what the verifiers rely on.
-- A store's operations are records over its state `S`. Times are in nanoseconds.
use blockade.Prelude.{
  if◌then◌else◌, Error, Result, ok, err, Go, ◌==◌, Bytes, ℕ, ◌≤◌, ◌<◌, ◌≡◌, ◌⊎◌, Bool, ◌||◌, Option,
  none, some,
}
use blockade.Prelude.Int.{ℤ}

pub record PendingEntry : Type 0 where
  pub sats : ℤ
  pub expires_at : ℕ

-- `mark_used` is given the time, which only the SQLite store records.
pub record Store (S : Type 0) : Type 0 where
  pub is_used : Bytes → Go S Bool
  pub mark_used : ℕ → Bytes → Go S (Unit {0})

pub record PendingStore (S : Type 0) : Type 0 where
  pub add_pending : Bytes → ℤ → ℕ → Go S (Unit {0})
  pub get_pending : Bytes → Go S (Option PendingEntry)
  pub delete_pending : Bytes → Go S (Unit {0})
  pub prune_expired_pending : ℕ → Go S (Unit {0})

-- A call returns no error, and then `P` holds, or it returns one, and then `Q` does.
abbrev pub Outcome {ℓ κ} : {A : Type ℓ} → Result A → A → Type κ → Type κ → Type (ℓ ⊔ κ)
Outcome r a P Q = ((r ≡ ok a) × P) ⊎ ((e : Error) × (r ≡ err e) × Q)

-- The contract of a Store: it is a set of keys, and a call that fails leaves it as it was.
pub record StoreLaws {S : Type 0} (st : Store S) (spent : S → Bytes → Bool) : Type 0 where
  pub is_used_result :
      (s : S) (k : Bytes) → Outcome (st.is_used k s).0 (spent s k) (Unit {0}) (Unit {0})
  pub is_used_keeps : (s : S) (k j : Bytes) → spent (st.is_used k s).1 j ≡ spent s j
  pub mark_used_result :
      (s : S) (now : ℕ) (k j : Bytes)
      → Outcome
          (st.mark_used now k s).0
          tt
          (spent (st.mark_used now k s).1 j ≡ (k == j || spent s j))
          (spent (st.mark_used now k s).1 j ≡ spent s j)

-- The contract of a PendingStore: a map from addresses to entries, which keeps the time `stored s t`
-- for an expiry `t`. PruneExpiredPending at `now` removes the entries whose expiry is before
-- `stored s now`, and no others where that is past 0. Its calls spend no key, and those of the
-- Store change no entry.
pub record PendingLaws {S : Type 0} (st : Store S) (ps : PendingStore S) (stored : S → ℕ → ℕ)
    (entry : S → Bytes → Option PendingEntry) (spent : S → Bytes → Bool) : Type 0 where
  pub add_result :
      (s : S) (k j : Bytes) (sats : ℤ) (t : ℕ)
      → Outcome
          (ps.add_pending k sats t s).0
          tt
          (entry (ps.add_pending k sats t s).1 j ≡ (
            if k == j then some (record { sats = sats; expires_at = stored s t }) else entry s j))
          (entry (ps.add_pending k sats t s).1 j ≡ entry s j)
  pub get_result :
      (s : S) (k : Bytes) → Outcome (ps.get_pending k s).0 (entry s k) (Unit {0}) (Unit {0})
  pub get_keeps : (s : S) (k j : Bytes) → entry (ps.get_pending k s).1 j ≡ entry s j
  pub delete_result :
      (s : S) (k j : Bytes)
      → Outcome
          (ps.delete_pending k s).0
          tt
          (entry (ps.delete_pending k s).1 j ≡ (if k == j then none else entry s j))
          (entry (ps.delete_pending k s).1 j ≡ entry s j)
  pub prune_keeps :
      (s : S) (now : ℕ) (k : Bytes) (e : PendingEntry)
      → entry s k ≡ some e
      → 1 ≤ stored s now
      → stored s now ≤ e.expires_at
      → entry (ps.prune_expired_pending now s).1 k ≡ some e
  pub prune_removes :
      (s : S) (now : ℕ) (k : Bytes) (e : PendingEntry)
      → entry s k ≡ some e
      → e.expires_at < stored s now
      → Outcome
          (ps.prune_expired_pending now s).0
          tt
          (entry (ps.prune_expired_pending now s).1 k ≡ none)
          (entry (ps.prune_expired_pending now s).1 k ≡ some e)
  pub prune_adds_nothing :
      (s : S) (now : ℕ) (k : Bytes)
      → entry s k ≡ none
      → entry (ps.prune_expired_pending now s).1 k ≡ none
  pub add_spent :
      (s : S) (k j : Bytes) (sats : ℤ) (t : ℕ) → spent (ps.add_pending k sats t s).1 j ≡ spent s j
  pub get_spent : (s : S) (k j : Bytes) → spent (ps.get_pending k s).1 j ≡ spent s j
  pub delete_spent : (s : S) (k j : Bytes) → spent (ps.delete_pending k s).1 j ≡ spent s j
  pub prune_spent :
      (s : S) (now : ℕ) (j : Bytes) → spent (ps.prune_expired_pending now s).1 j ≡ spent s j
  pub is_used_entry : (s : S) (k j : Bytes) → entry (st.is_used k s).1 j ≡ entry s j
  pub mark_used_entry :
      (s : S) (now : ℕ) (k j : Bytes) → entry (st.mark_used now k s).1 j ≡ entry s j

-- No call of the store fails.
pub record IsReliable {S : Type 0} (st : Store S) : Type 0 where
  pub is_used_succeeds : (s : S) (k : Bytes) → (b : Bool) × ((st.is_used k s).0 ≡ ok b)
  pub mark_used_succeeds : (s : S) (now : ℕ) (k : Bytes) → (st.mark_used now k s).0 ≡ ok tt

pub record IsReliablePending {S : Type 0} (ps : PendingStore S) : Type 0 where
  pub get_succeeds :
      (s : S) (k : Bytes) → (o : Option PendingEntry) × ((ps.get_pending k s).0 ≡ ok o)
  pub delete_succeeds : (s : S) (k : Bytes) → (ps.delete_pending k s).0 ≡ ok tt
