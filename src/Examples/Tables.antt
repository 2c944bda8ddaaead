-- ===== src/Examples/Tables.antt =====
-- A concrete engine for the SQLite store: its tables are functions from the primary key.
use blockade.Prelude.{
  if◌then◌else◌, ok, ◌==◌, Bytes, String, ◌≡◌, refl, inl, Bool, false, ◌||◌, Option, none, some,
  List, [], ◌∷◌,
}
use text.Mathlib.Text.{◌==◌ as str_eq}
use blockade.Prelude.Int.{ℤ, pos, leb_ℤ}
use blockade.Store.Types.{StoreLaws, PendingLaws}
use blockade.Store.Sqlite.{
  Engine, Value, text_value, integer_value, insert_used, insert_pending, delete_from_pending,
  delete_expired, sqlite_store, sqlite_pending,
}
use blockade.Store.Sqlite.Tables.{SqlLaws}
use blockade.Store.Sqlite.Contract.{
  whole_seconds, entry, sqlite_store-StoreLaws, sqlite_store-PendingLaws,
}

pub record Rows : Type 0 where
  pub keys : Bytes → Bool
  pub addresses : Bytes → Option (ℤ × ℤ)

abbrev unexpired : ℤ → Option (ℤ × ℤ) → Option (ℤ × ℤ)
unexpired t none = none
unexpired t (some (sats, expires)) = if leb_ℤ t expires then some (sats, expires) else none

abbrev insert_key : List Value → Rows → Rows
insert_key (text_value k ∷ rest) d = record d { keys = λ j. k == j || d.keys j }
insert_key _ d = d

abbrev replace : List Value → Rows → Rows
replace (text_value k ∷ integer_value sats ∷ integer_value t ∷ []) d = record d {
  addresses = λ j. if k == j then some (sats, t) else d.addresses j;
}
replace _ d = d

abbrev remove : List Value → Rows → Rows
remove (text_value k ∷ rest) d = record d {
  addresses = λ j. if k == j then none else d.addresses j;
}
remove _ d = d

abbrev remove_below : List Value → Rows → Rows
remove_below (integer_value t ∷ rest) d = record d { addresses = λ j. unexpired t (d.addresses j) }
remove_below _ d = d

abbrev run_statement : String → List Value → Rows → Rows
run_statement s vals d =
    if str_eq s insert_used
    then insert_key vals d
    else if str_eq s insert_pending
    then replace vals d
    else if str_eq s delete_from_pending
    then remove vals d
    else if str_eq s delete_expired
    then remove_below vals d
    else d

abbrev counted : List Value → Rows → ℤ
counted (text_value k ∷ rest) d = if d.keys k then pos 1 else pos 0
counted _ d = pos 0

abbrev selected : List Value → Rows → Option (ℤ × ℤ)
selected (text_value k ∷ rest) d = d.addresses k
selected _ d = none

abbrev pub tables : Engine Rows
tables = record {
  open_db = λ path. ok (record { keys = λ j. false; addresses = λ j. none });
  exec = λ s vals d. (ok tt, run_statement s vals d);
  scan_one = λ s vals d. (ok (counted vals d), d);
  scan_two = λ s vals d. (ok (selected vals d), d);
}

below :
    (t : ℤ) (o : Option (ℤ × ℤ))
    → unexpired t o ≡ elim o [
      | none ↦ none
      | some (sats, expires) ↦ if leb_ℤ t expires then some (sats, expires) else none
    ]
below t none = refl
below t (some (sats, expires)) = refl

pub tables-SqlLaws : SqlLaws tables (λ d. d.keys) (λ d. d.addresses)
tables-SqlLaws = record {
  count_result = λ d k. inl (refl, tt);
  count_keeps = λ d k j. (refl, refl);
  select_result = λ d k. inl (refl, tt);
  select_keeps = λ d k j. (refl, refl);
  insert_or_ignore = λ d k j t. (inl (refl, refl), refl);
  insert_or_replace = λ d k j sats t. (inl (refl, refl), refl);
  delete_key = λ d k j. (inl (refl, refl), refl);
  delete_below = λ d t j. (inl (refl, below t (d.addresses j)), refl);
}

sqlite_store-StoreLaws_example : StoreLaws (sqlite_store tables) (λ d. d.keys)
sqlite_store-StoreLaws_example =
    sqlite_store-StoreLaws tables (λ d. d.keys) (λ d. d.addresses) tables-SqlLaws

sqlite_store-PendingLaws_example :
    PendingLaws
      (sqlite_store tables)
      (sqlite_pending tables)
      (λ d. whole_seconds)
      (entry tables (λ d. d.keys) (λ d. d.addresses) tables-SqlLaws)
      (λ d. d.keys)
sqlite_store-PendingLaws_example =
    sqlite_store-PendingLaws tables (λ d. d.keys) (λ d. d.addresses) tables-SqlLaws
