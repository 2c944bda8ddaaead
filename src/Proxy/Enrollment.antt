-- ===== src/Proxy/Enrollment.antt =====
-- The enrolment path of internal/proxy/proxy.go, from the stake's challenge to the credential.
pub mod Served
use blockade.Prelude.{
  ok, Bytes, eq_refl, lookup-insert, lookup-delete, lookup, ℕ, ◌/◌, ◌≡◌, none, some, arith,
}
use blockade.Prelude.Int.{pos}
use blockade.Std.Http.{set, Request, Writer, get, status, response, set_header, write_header, write}
use blockade.Price.{with_price}
use blockade.Store.Principal.{MemPrincipalStore, create_principal}
use blockade.Lightning.Services.{MacaroonLaws}
use blockade.Lightning.Verifier.{Verifier, World}
use blockade.Lightning.Interface.{lightning_issuer}
use blockade.Lightning.Credential.{validate_credential}
use blockade.Lightning.Settlement.{complete_enrollment_validates}
use blockade.Lightning.Enrollment as Stake
use blockade.Config.{CurveConfig}
use blockade.Proxy.Handler.{Handler, State, Metering, credential_header}
use blockade.Proxy.Counting.{in_memory}
use blockade.Proxy.Metered.{enrolled, complete_enrollment, pending_hash, enrollment_challenge}

module _ {V P N F : Type 0} (h : Handler V P N F) (m : Metering V P) where
  -- After an enrolment challenge for the payment hash `hash` was issued, a token with that hash is
  -- taken for an enrolment.
  pub enrollment_challenge-tracks :
      (now : ℕ) (r : Request) (w w' : Writer) (s : State V P N) (hash token : Bytes)
      → (m.cred_issuer.issue_enrollment_challenge now
          (with_price m.curve.enrollment_stake_sats r)
          w
          s.backend).0
        ≡ ok (hash, w')
      → m.cred_issuer.payment_hash_from_token token ≡ ok hash
      → pending_hash h m token (enrollment_challenge h m now r w s).1 ≡ some hash
  unfolding enrollment_challenge pending_hash
  enrollment_challenge-tracks now r w w' s hash token issued names =
      ground (arith, issued, names, eq_refl hash, lookup-insert hash hash tt s.pending_enrollments)

module _ {M E S N F : Type 0} (v : Verifier M E S) (mac : MacaroonLaws v.lib)
    (h : Handler (World E S) MemPrincipalStore N F) (curve : CurveConfig) where
  abbrev pub metering : Metering (World E S) MemPrincipalStore
  metering = in_memory h curve (lightning_issuer v)

  -- What a client that has enrolled at the time `now` gets: status 200 with a credential that
  -- validates to a principal, who has made no request yet; the hash is no longer pending.
  pub record Enrolls (now : ℕ) (hash : Bytes) (w : Writer)
      (s : State (World E S) MemPrincipalStore N) (id cred : Bytes) : Type 0 where
    pub answers : status w ≡ 200
    pub hands : get credential_header (response w).1 ≡ cred
    pub validates : validate_credential v cred ≡ ok id
    pub knows :
        lookup id s.principal_state
        ≡ some (record { request_count = pos 0; enrolled_at = pos (now / 1_000_000_000) })
    pub drops : lookup hash s.pending_enrollments ≡ none

  -- A token that the backend accepts for an enrolment enrols its client: the response, on which
  -- nothing was sent before, has status 200 and a credential that validates to a principal, who is
  -- known and has made no request; the hash is no longer pending. The macaroon library reads back
  -- and verifies what it makes.
  pub complete_enrollment-Enrolls :
      (now : ℕ) (token hash id cred : Bytes) (w : Writer)
      (s : State (World E S) MemPrincipalStore N)
      → w.sent ≡ none
      → (Stake.complete_enrollment v now token s.backend).0 ≡ ok (id, cred)
      → let (w', s') = complete_enrollment h metering now token hash w s in
        Enrolls now hash w' s' id cred
  unfolding complete_enrollment enrolled create_principal set_header write_header write response get
      set
  complete_enrollment-Enrolls now token hash id cred w s fresh done =
      rw (done, complete_enrollment)
        (record {
          answers = ground (arith, fresh);
          hands = ground (arith, fresh);
          validates = complete_enrollment_validates v mac now token id cred s.backend done;
          knows = ground (
            arith,
            eq_refl id,
            lookup-insert id id
                (record { request_count = pos 0; enrolled_at = pos (now / 1_000_000_000) })
                s.principal_state,
          );
          drops = ground (arith, eq_refl hash, lookup-delete hash hash s.pending_enrollments);
        })
