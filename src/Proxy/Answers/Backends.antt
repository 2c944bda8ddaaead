-- ===== src/Proxy/Answers/Backends.antt =====
-- What IssueChallenge and IssueEnrollmentChallenge of both backends write.
use blockade.Prelude.{ok, Result-cases, Bytes, bytes, ℕ, ◌+◌, ◌≡◌, inl, inr, ◌++◌, arith}
use blockade.Std.Base64
use blockade.Std.Http.{Request, Writer}
use blockade.Price.{positive_price}
use blockade.Lightning.Client
use blockade.Lightning.Interface.{lightning_verifier, lightning_issuer}
use blockade.Lightning.Challenge.{issue_challenge-Challenges}
use blockade.Lightning.Verifier as Lightning
use blockade.Lightning.Enrollment as Enrollment
use blockade.Onchain.Client.{get_new_address}
use blockade.Onchain.Verifier as Onchain
use blockade.Payment.{payment_required, AsksPayment, AsksStake}

module _ {M E S : Type 0} (v : Lightning.Verifier M E S) where
  pub lightning_verifier-AsksPayment : AsksPayment (lightning_verifier v)
  lightning_verifier-AsksPayment = record {
    asks = λ now r w w' s h.
        let (p, k, m, raw, c, e) = issue_challenge-Challenges v r w w' s h in (_, e);
  }

  enrollment-writer :
      (r : Request) (w w' : Writer) (s : Lightning.World E S) (hash : Bytes)
      → (Enrollment.issue_enrollment_challenge v r w s).0 ≡ ok (hash, w')
      → (c : Bytes) × (w' ≡ payment_required c w)
  unfolding Enrollment.issue_enrollment_challenge
  enrollment-writer r w w' s hash h = elim (Result-cases (positive_price r)) [
    | inr (e, p) ↦ absurd (ground (arith, p))
    | inl (price, p) ↦
        elim (Result-cases
          (Client.add_invoice v.services price (bytes "blockaide enrollment: " ++ r.path)
            s.env).0) [
              | inr (e, i) ↦ absurd (ground (arith, p, i))
              | inl ((pay_req, ph), i) ↦ elim (Result-cases (Lightning.mint_macaroon v ph)) [
                | inr (e, q) ↦ absurd (ground (arith, p, i, q))
                | inl (m, q) ↦ elim (Result-cases (v.lib.marshal_binary m)) [
                  | inr (e, k) ↦ absurd (ground (arith, p, i, q, k))
                  | inl (raw, k) ↦ (
                    Enrollment.enrollment_challenge (Base64.encode raw) pay_req,
                    ground (arith, p, i, q, k),
                  )
                ]
              ]
            ]
  ]

  pub lightning_issuer-AsksStake : AsksStake (lightning_issuer v)
  lightning_issuer-AsksStake = record {
    asks_stake = λ now r w w' s hash h. enrollment-writer r w w' s hash h;
  }

module _ {J F E S : Type 0} (v : Onchain.Verifier J F E S) where
  onchain-writer :
      (now : ℕ) (r : Request) (w w' : Writer) (s : Onchain.World E S)
      → (Onchain.issue_challenge v now r w s).0 ≡ ok w'
      → (c : Bytes) × (w' ≡ payment_required c w)
  unfolding Onchain.issue_challenge
  onchain-writer now r w w' s h = elim (Result-cases (positive_price r)) [
    | inr (e, p) ↦ absurd (ground (arith, p))
    | inl (price, p) ↦ elim (Result-cases (get_new_address v.btc s.env).0) [
      | inr (e, i) ↦ absurd (ground (arith, p, i))
      | inl (addr, i) ↦
          elim (Result-cases (v.ps.add_pending addr price (now + Onchain.pending_ttl) s.store).0) [
            | inr (e, q) ↦ absurd (ground (arith, p, i, q))
            | inl (u, q) ↦ (Onchain.onchain_challenge addr price, ground (arith, p, i, q))
          ]
    ]
  ]

  pub onchain_verifier-AsksPayment : AsksPayment (Onchain.onchain_verifier v)
  onchain_verifier-AsksPayment = record { asks = onchain-writer }
