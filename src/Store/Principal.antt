-- ===== src/Store/Principal.antt =====
-- internal/store/principal.go: the metering state of each principal.
use blockade.Prelude.{
  if◌then◌else◌, Option-cases, ok, Go, ◌==◌, Bytes, eq_iff, Map, lookup-insert, lookup, insert, ◌≡◌,
  inl, inr, Option, none, some, arith,
}
use mathlib.Core.Option
use blockade.Prelude.Int.{ℤ, pos, ◌+ℤ◌, wrap64}

pub record PrincipalRecord : Type 0 where
  pub request_count : ℤ
  pub enrolled_at : ℤ

pub record PrincipalStore (P : Type 0) : Type 0 where
  pub create_principal : Bytes → ℤ → Go P (Unit {0})
  pub get_principal : Bytes → Go P (Option PrincipalRecord)
  pub increment_request_count : Bytes → Go P ℤ

-- MemPrincipalStore. The map's values are pointers in the source, and no other pointer to them is
-- kept: `get_principal` returns a copy.
abbrev pub MemPrincipalStore : Type 0
MemPrincipalStore = Map PrincipalRecord

unfoldable pub create_principal : Bytes → ℤ → Go MemPrincipalStore (Unit {0})
create_principal id enrolled_at s =
    (ok tt, insert id (record { request_count = pos 0; enrolled_at = enrolled_at }) s)

unfoldable pub get_principal : Bytes → Go MemPrincipalStore (Option PrincipalRecord)
get_principal id s = (ok (lookup id s), s)

unfoldable pub increment_request_count : Bytes → Go MemPrincipalStore ℤ
increment_request_count id s = elim (lookup id s) [
  | none ↦ (ok (pos 0), s)
  | some r ↦
      let count = wrap64 (r.request_count +ℤ pos 1) in
      (ok count, insert id (record r { request_count = count }) s)
]

abbrev pub mem_principals : PrincipalStore MemPrincipalStore
mem_principals = record {
  create_principal = create_principal;
  get_principal = get_principal;
  increment_request_count = increment_request_count;
}

abbrev pub counted : PrincipalRecord → PrincipalRecord
counted r = record r { request_count = wrap64 (r.request_count +ℤ pos 1) }

-- An increment adds one to the count of its principal, keeps its enrolment time and every other
-- principal, and creates none.
pub lookup-increment :
    (k j : Bytes) (s : MemPrincipalStore)
    → lookup j (increment_request_count k s).1
      ≡ (if k == j then Option.map counted (lookup j s) else lookup j s)
unfolding increment_request_count
lookup-increment k j s = elim (Option-cases (lookup k s)) [
  | inl e ↦ ground (arith, eq_iff k j, e)
  | inr (r, e) ↦ ground (arith, eq_iff k j, e, lookup-insert k j (counted r) s)
]
