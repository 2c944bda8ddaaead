-- ===== src/Store/Sqlite/Tables.antt =====
-- What internal/store/sqlite.go relies on of the engine: SQL's meaning of its statements, on tables
-- with a primary key.
use blockade.Prelude.{if◌then◌else◌, ◌==◌, Bytes, ◌≡◌, Bool, ◌||◌, Option, none, some, [], ◌∷◌}
use blockade.Prelude.Int.{ℤ, pos, leb_ℤ}
use blockade.Store.Types.{Outcome}
use blockade.Store.Sqlite.{
  Engine, text_value, integer_value, count_used, insert_used, insert_pending, select_pending,
  delete_from_pending, delete_expired,
}

-- `used` is the set of keys in used_tokens, and `row` the columns of pending_addresses at a key. A
-- statement that fails leaves the tables as they were.
pub record SqlLaws {D : Type 0} (db : Engine D) (used : D → Bytes → Bool)
    (row : D → Bytes → Option (ℤ × ℤ)) : Type 0 where
  pub count_result :
      (d : D) (k : Bytes)
      → Outcome
          (db.scan_one count_used (text_value k ∷ []) d).0
          (if used d k then pos 1 else pos 0)
          (Unit {0})
          (Unit {0})
  pub count_keeps :
      (d : D) (k j : Bytes)
      → (used (db.scan_one count_used (text_value k ∷ []) d).1 j ≡ used d j)
        × (row (db.scan_one count_used (text_value k ∷ []) d).1 j ≡ row d j)
  pub select_result :
      (d : D) (k : Bytes)
      → Outcome (db.scan_two select_pending (text_value k ∷ []) d).0 (row d k) (Unit {0}) (Unit {0})
  pub select_keeps :
      (d : D) (k j : Bytes)
      → (used (db.scan_two select_pending (text_value k ∷ []) d).1 j ≡ used d j)
        × (row (db.scan_two select_pending (text_value k ∷ []) d).1 j ≡ row d j)
  pub insert_or_ignore :
      (d : D) (k j : Bytes) (t : ℤ)
      → let (r, d') = db.exec insert_used (text_value k ∷ integer_value t ∷ []) d in
        Outcome r tt (used d' j ≡ (k == j || used d j)) (used d' j ≡ used d j)
        × (row d' j ≡ row d j)
  pub insert_or_replace :
      (d : D) (k j : Bytes) (sats t : ℤ)
      → let (r, d') =
          db.exec insert_pending (text_value k ∷ integer_value sats ∷ integer_value t ∷ []) d in
        Outcome r tt (row d' j ≡ (if k == j then some (sats, t) else row d j)) (row d' j ≡ row d j)
        × (used d' j ≡ used d j)
  pub delete_key :
      (d : D) (k j : Bytes)
      → let (r, d') = db.exec delete_from_pending (text_value k ∷ []) d in
        Outcome r tt (row d' j ≡ (if k == j then none else row d j)) (row d' j ≡ row d j)
        × (used d' j ≡ used d j)
  pub delete_below :
      (d : D) (t : ℤ) (j : Bytes)
      → let (r, d') = db.exec delete_expired (integer_value t ∷ []) d in
        Outcome r tt
          (row d' j ≡ elim (row d j) [
            | none ↦ none
            | some (sats, expires) ↦ if leb_ℤ t expires then some (sats, expires) else none
          ])
          (row d' j ≡ row d j)
        × (used d' j ≡ used d j)
