-- ===== src/Store/Sqlite.antt =====
-- internal/store/sqlite.go: SQLiteStore. The engine behind database/sql is a parameter; with one
-- connection each statement is one critical section. Times are in nanoseconds, and none is before
-- 1970.
pub mod Tables
pub mod Contract
use blockade.Prelude.{
  Result, ok, err, context, Go, Bytes, ℕ, ◌*◌, ◌/◌, String, Bool, Option, List, [], ◌∷◌, map,
}
use blockade.Prelude.Int.{ℤ, pos, negsuc, ltb_ℤ}
use mathlib.Core.Option
use blockade.Prelude.State.{pure, within, ◌>>=◌}
use blockade.Store.Types.{PendingEntry, Store, PendingStore}

pub data Value : Type 0 where
  text_value : Bytes → Value
  integer_value : ℤ → Value

-- database/sql with the sqlite driver: Open, Exec, and QueryRow with Scan into one or two integers,
-- where `none` is sql.ErrNoRows.
pub record Engine (D : Type 0) : Type 0 where
  pub open_db : Bytes → Result D
  pub exec : String → List Value → Go D (Unit {0})
  pub scan_one : String → List Value → Go D ℤ
  pub scan_two : String → List Value → Go D (Option (ℤ × ℤ))

-- The statements.
abbrev pub create_used : String
create_used =
    "CREATE TABLE IF NOT EXISTS used_tokens (\n\t\ttoken_key TEXT    PRIMARY KEY NOT NULL,\n\t\tused_at   INTEGER NOT NULL\n\t)"

abbrev pub create_pending : String
create_pending =
    "CREATE TABLE IF NOT EXISTS pending_addresses (\n\t\taddr       TEXT    PRIMARY KEY NOT NULL,\n\t\tsats       INTEGER NOT NULL,\n\t\texpires_at INTEGER NOT NULL\n\t)"

abbrev pub count_used : String
count_used = "SELECT COUNT(*) FROM used_tokens WHERE token_key = ?"

abbrev pub insert_used : String
insert_used = "INSERT OR IGNORE INTO used_tokens (token_key, used_at) VALUES (?, ?)"

abbrev pub insert_pending : String
insert_pending =
    "INSERT OR REPLACE INTO pending_addresses (addr, sats, expires_at) VALUES (?, ?, ?)"

abbrev pub select_pending : String
select_pending = "SELECT sats, expires_at FROM pending_addresses WHERE addr = ?"

abbrev pub delete_from_pending : String
delete_from_pending = "DELETE FROM pending_addresses WHERE addr = ?"

abbrev pub delete_expired : String
delete_expired = "DELETE FROM pending_addresses WHERE expires_at < ?"

-- t.Unix() and time.Unix(n, 0)
unfoldable pub unix : ℕ → ℤ
unix t = pos (t / 1_000_000_000)

unfoldable pub from_unix : ℤ → ℕ
from_unix (pos n) = n * 1_000_000_000
from_unix (negsuc n) = 0

abbrev pub to_entry : ℤ × ℤ → PendingEntry
to_entry (sats, expires) = record { sats = sats; expires_at = from_unix expires }

module _ {D : Type 0} (db : Engine D) where
  -- The path in the text of the first error is left out.
  unfoldable pub open_sqlite : Bytes → Result D
  open_sqlite path = elim (context "open sqlite" (db.open_db path)) [
    | err e ↦ err e
    | ok d ↦
        let (created, d') = within "init schema" (db.exec create_used []) d in
        elim created [
          | err e ↦ err e
          | ok u ↦
              let (pending, d2) = within "init pending schema" (db.exec create_pending []) d' in
              elim pending [ err e ↦ err e | ok u2 ↦ ok d2 ]
        ]
  ]

  unfoldable pub is_used : Bytes → Go D Bool
  is_used key = do
    count ← within "query used_tokens" (db.scan_one count_used (text_value key ∷ []))
    pure (ltb_ℤ (pos 0) count)

  unfoldable pub mark_used : ℕ → Bytes → Go D (Unit {0})
  unfolding unix
  mark_used now key =
      within "insert used_tokens"
        (db.exec insert_used (text_value key ∷ integer_value (unix now) ∷ []))

  unfoldable pub add_pending : Bytes → ℤ → ℕ → Go D (Unit {0})
  unfolding unix
  add_pending addr sats expires_at = within "insert pending_addresses" (
      db.exec insert_pending
        (text_value addr ∷ integer_value sats ∷ integer_value (unix expires_at) ∷ []))

  unfoldable pub get_pending : Bytes → Go D (Option PendingEntry)
  unfolding from_unix
  get_pending addr = do
    row ← within "query pending_addresses" (db.scan_two select_pending (text_value addr ∷ []))
    pure (Option.map to_entry row)

  unfoldable pub delete_pending : Bytes → Go D (Unit {0})
  delete_pending addr =
      within "delete pending_addresses" (db.exec delete_from_pending (text_value addr ∷ []))

  unfoldable pub prune_expired_pending : ℕ → Go D (Unit {0})
  unfolding unix
  prune_expired_pending before =
      within "prune pending_addresses" (db.exec delete_expired (integer_value (unix before) ∷ []))

  abbrev pub sqlite_store : Store D
  sqlite_store = record { is_used = is_used; mark_used = mark_used }

  abbrev pub sqlite_pending : PendingStore D
  sqlite_pending = record {
    add_pending = add_pending;
    get_pending = get_pending;
    delete_pending = delete_pending;
    prune_expired_pending = prune_expired_pending;
  }
