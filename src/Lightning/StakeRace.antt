-- ===== src/Lightning/StakeRace.antt =====
-- Calls of CompleteEnrollment (internal/payment/lightning/verifier.go) for one payment hash that run at
-- the same time.
use blockade.Prelude.{
  new, Result, ok, err, Bytes, IsBytes, ℕ, ◌≡◌, sym, ap, ◌∙◌, ◌≢◌, Bool, true, false, List, [], ◌∷◌,
  arith,
}
use blockade.Prelude.State.{within}
use blockade.Prelude.Schedules.{race, advance_at}
use blockade.Std.Hex
use blockade.Std.Hex.Laws
use blockade.Store.Types.{StoreLaws, IsReliable}
use blockade.Lightning.Credential.{mint_credential}
use blockade.Lightning.Verifier.{Verifier, World, on_store}
use blockade.Lightning.Enrollment.{new_principal_id, mint_principal, spend_stake}

-- A call behind its settlement check: before IsUsed, before MarkUsed, before the identifier and the
-- credential are made, and at its end.
pub data Call : Type 0 where
  checking : Call
  marking : Call
  minting : Call
  answered : Result (Bytes × Bytes) → Call

-- Two turns to read and mark, and then both calls mint.
abbrev pub both_enroll : ℕ → List (ℕ × ℕ)
both_enroll now = (0, now) ∷ (1, now) ∷ (0, now) ∷ (1, now) ∷ (0, now) ∷ (1, now) ∷ []

module _ {M E S : Type 0} (v : Verifier M E S) (hash_hex : Bytes) where
  abbrev after_check : Result Bool → Call
  after_check (err e) = answered (err e)
  after_check (ok true) = answered (err (new "enrollment token already used"))
  after_check (ok false) = marking

  abbrev after_mark : Result (Unit {0}) → Call
  after_mark (err e) = answered (err e)
  after_mark (ok u) = minting

  -- A call up to the end of its next critical section.
  unfoldable pub advance : ℕ → Call → World E S → Call × World E S
  advance now checking w =
      let (used, w') = within "check used token" (on_store (v.st.is_used hash_hex)) w in
      (after_check used, w')
  advance now marking w =
      let (marked, w') = within "mark token used" (on_store (v.st.mark_used now hash_hex)) w in
      (after_mark marked, w')
  advance now minting w = let (r, w') = mint_principal v w in (answered r, w')
  advance now (answered r) w = (answered r, w)

  -- A call that nobody interrupts is the end of CompleteEnrollment.
  alone :
      (now : ℕ) (w : World E S)
      → (race advance ((0, now) ∷ (0, now) ∷ (0, now) ∷ []) (checking ∷ []) w)
        ≡ (answered (spend_stake v now hash_hex w).0 ∷ [], (spend_stake v now hash_hex w).1)
  unfolding race advance_at advance spend_stake
  alone now w = ground arith

  -- The generator gives `bs`, and then is in the state `e'`.
  abbrev pub Draws : E → Bytes → E → Type 0
  Draws e bs e' = v.services.rand_read 16 e ≡ (ok bs, e')

  mint_principal_drawn :
      (bs cred : Bytes) (w : World E S) (e' : E)
      → Draws w.env bs e'
      → mint_credential v (Hex.encode bs) ≡ ok cred
      → mint_principal v w ≡ (ok (Hex.encode bs, cred), record w { env = e' })
  unfolding mint_principal new_principal_id
  mint_principal_drawn bs cred w e' d c = ground (arith, d, c)

  both-Minted :
      (spent : S → Bytes → Bool) (laws : StoreLaws v.st spent) (reliable : IsReliable v.st)
      (now : ℕ) (w : World E S) (b1 b2 c1 c2 : Bytes) (e1 e2 : E)
      → spent w.store hash_hex ≡ false
      → Draws w.env b1 e1
      → Draws e1 b2 e2
      → mint_credential v (Hex.encode b1) ≡ ok c1
      → mint_credential v (Hex.encode b2) ≡ ok c2
      → (race advance (both_enroll now) (checking ∷ checking ∷ []) w).0
        ≡ answered (ok (Hex.encode b1, c1)) ∷ answered (ok (Hex.encode b2, c2)) ∷ []
  unfolding race advance_at advance
  both-Minted spent laws reliable now w b1 b2 c1 c2 e1 e2 fresh d1 d2 m1 m2 =
      let s = (v.st.is_used hash_hex w.store).1 in
      let s2 = (v.st.is_used hash_hex s).1 in
      let s3 = (v.st.mark_used now hash_hex s2).1 in
      let s4 = (v.st.mark_used now hash_hex s3).1 in
      ground (
        arith,
        laws.is_used_result w.store hash_hex,
        reliable.is_used_succeeds w.store hash_hex,
        laws.is_used_keeps w.store hash_hex hash_hex,
        laws.is_used_result s hash_hex,
        reliable.is_used_succeeds s hash_hex,
        reliable.mark_used_succeeds s2 now hash_hex,
        reliable.mark_used_succeeds s3 now hash_hex,
        mint_principal_drawn b1 c1 (record w { store = s4 }) e1 d1 m1,
        mint_principal_drawn b2 c2 (record { env = e1; store = s4 }) e2 d2 m2,
      )

  distinct : (b1 b2 : Bytes) → IsBytes b1 → IsBytes b2 → b1 ≢ b2 → Hex.encode b1 ≢ Hex.encode b2
  distinct b1 b2 h1 h2 differ same =
      let decoded : ok b1 ≡ ok b2 =
        sym (Hex.Laws.decode-encode b1 h1) ∙ ap Hex.decode same ∙ Hex.Laws.decode-encode b2 h2 in
      differ (cc decoded)

  -- One stake pays for two principals: two calls of CompleteEnrollment for one unspent payment hash,
  -- whose checks both come before either mark, both return a credential, and the two identifiers
  -- differ if the generator draws different bytes. The store keeps its contract and does not fail,
  -- and both credentials can be minted.
  pub race_enrolls_twice :
      (spent : S → Bytes → Bool) (laws : StoreLaws v.st spent) (reliable : IsReliable v.st)
      (now : ℕ) (w : World E S) (b1 b2 c1 c2 : Bytes) (e1 e2 : E)
      → spent w.store hash_hex ≡ false
      → Draws w.env b1 e1
      → Draws e1 b2 e2
      → mint_credential v (Hex.encode b1) ≡ ok c1
      → mint_credential v (Hex.encode b2) ≡ ok c2
      → IsBytes b1
      → IsBytes b2
      → b1 ≢ b2
      → ((race advance (both_enroll now) (checking ∷ checking ∷ []) w).0
          ≡ answered (ok (Hex.encode b1, c1)) ∷ answered (ok (Hex.encode b2, c2)) ∷ [])
        × (Hex.encode b1 ≢ Hex.encode b2)
  race_enrolls_twice spent laws reliable now w b1 b2 c1 c2 e1 e2 fresh d1 d2 m1 m2 h1 h2 differ = (
    both-Minted spent laws reliable now w b1 b2 c1 c2 e1 e2 fresh d1 d2 m1 m2,
    distinct b1 b2 h1 h2 differ,
  )
