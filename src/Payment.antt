-- ===== src/Payment.antt =====
-- internal/payment/verifier.go and metering.go: the interfaces between the proxy and a payment
-- backend, as records over the backend's state `V`, and what the proxy relies on.
use blockade.Prelude.{Result, ok, Go, Bytes, ℕ, ◌≡◌, ◌≢◌, ◌⊎◌, Bool, true, false, Option, some}
use blockade.Std.Http.{Request, Writer, set_header, write_header}

-- A call that reads the clock is given the time. What a challenge writes to the response comes
-- back as the writer.
pub record PaymentVerifier (V : Type 0) : Type 0 where
  pub issue_challenge : ℕ → Request → Writer → Go V Writer
  pub verify_proof : ℕ → Bytes → Go V Bool
  pub extract_token : Bytes → Option Bytes

pub record CredentialIssuer (V : Type 0) : Type 0 where
  pub issue_enrollment_challenge : ℕ → Request → Writer → Go V (Bytes × Writer)
  pub complete_enrollment : ℕ → Bytes → Go V (Bytes × Bytes)
  pub validate_credential : Bytes → Result Bytes
  pub payment_hash_from_token : Bytes → Result Bytes
  pub lookup_settlement : Bytes → Go V (Option Bytes)

-- `r` accepts, and then `P` holds, or it does not, and then `Q` does.
abbrev pub Verdict : Result Bool → Type 0 → Type 0 → Type 0
Verdict r P Q = ((r ≡ ok true) × P) ⊎ ((r ≢ ok true) × Q)

-- A payment is known by its key: `key t` is that of the token `t`, and `spent` holds the keys that
-- have been accepted.
module _ {V : Type 0} (key : Bytes → Option Bytes) (spent : V → Bytes → Bool) where
  -- `t` pays with a key that `v` has not spent and `w` has.
  pub record Pays (t : Bytes) (v w : V) : Type 0 where
    pub paid : Bytes
    pub names : key t ≡ some paid
    pub fresh : spent v paid ≡ false
    pub gone : spent w paid ≡ true

  -- A backend accepts a payment once: it accepts an unspent key and spends it, spends nothing when
  -- it refuses or fails, and forgets no spent key.
  pub record SingleUse (pv : PaymentVerifier V) : Type 0 where
    pub accepts :
        (now : ℕ) (t : Bytes) (v : V)
        → (pv.verify_proof now t v).0 ≡ ok true
        → Pays t v (pv.verify_proof now t v).1
    pub refuses :
        (now : ℕ) (t : Bytes) (v : V) (j : Bytes)
        → (pv.verify_proof now t v).0 ≢ ok true
        → spent (pv.verify_proof now t v).1 j ≡ spent v j
    pub verify_keeps :
        (now : ℕ) (t : Bytes) (v : V) (j : Bytes)
        → spent v j ≡ true
        → spent (pv.verify_proof now t v).1 j ≡ true
    pub challenge_keeps :
        (now : ℕ) (r : Request) (w : Writer) (v : V) (j : Bytes)
        → spent (pv.issue_challenge now r w v).1 j ≡ spent v j

  -- The same of enrolment payments, which may be spent though the call fails after that.
  pub record SingleUseIssuer (ci : CredentialIssuer V) : Type 0 where
    pub completes :
        (now : ℕ) (t : Bytes) (v : V) (p : Bytes × Bytes)
        → (ci.complete_enrollment now t v).0 ≡ ok p
        → Pays t v (ci.complete_enrollment now t v).1
    pub complete_keeps :
        (now : ℕ) (t : Bytes) (v : V) (j : Bytes)
        → spent v j ≡ true
        → spent (ci.complete_enrollment now t v).1 j ≡ true
    pub enrollment_challenge_keeps :
        (now : ℕ) (r : Request) (w : Writer) (v : V) (j : Bytes)
        → spent (ci.issue_enrollment_challenge now r w v).1 j ≡ spent v j
    pub settlement_keeps :
        (h : Bytes) (v : V) (j : Bytes) → spent (ci.lookup_settlement h v).1 j ≡ spent v j

-- What a payment or enrolment challenge writes.
abbrev pub payment_required : Bytes → Writer → Writer
payment_required c w = write_header 402 (set_header "Www-Authenticate" c w)

-- A challenge that is issued is a status 402 with one header.
pub record AsksPayment {V : Type 0} (pv : PaymentVerifier V) : Type 0 where
  pub asks :
      (now : ℕ) (r : Request) (w w' : Writer) (v : V)
      → (pv.issue_challenge now r w v).0 ≡ ok w'
      → (c : Bytes) × (w' ≡ payment_required c w)

pub record AsksStake {V : Type 0} (ci : CredentialIssuer V) : Type 0 where
  pub asks_stake :
      (now : ℕ) (r : Request) (w w' : Writer) (v : V) (hash : Bytes)
      → (ci.issue_enrollment_challenge now r w v).0 ≡ ok (hash, w')
      → (c : Bytes) × (w' ≡ payment_required c w)
