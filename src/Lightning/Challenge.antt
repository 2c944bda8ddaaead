-- ===== src/Lightning/Challenge.antt =====
-- IssueChallenge of internal/payment/lightning/verifier.go: the parts of a challenge, and the client
-- that pays it.
use blockade.Prelude.{
  length, ok, Result-cases, Bytes, IsBytes, bytes, ℕ, ◌≡◌, refl, inl, inr, Bool, true, false, ◌++◌,
  arith,
}
use blockade.Prelude.Int.{ℤ}
use blockade.Std.Base64
use blockade.Std.Hex
use blockade.Std.Hex.Laws
use blockade.Std.Sha256.{sum256, length-sum256, IsBytes-sum256}
use blockade.Std.Http.{Request, Writer, set_header, write_header}
use blockade.Price.{positive_price}
use blockade.Store.Types.{StoreLaws, IsReliable}
use blockade.Lightning.Services.{settled, Invoice, MacaroonLaws}
use blockade.Lightning.Client
use blockade.Lightning.Token.{payment_hash_from_id}
use blockade.Lightning.Token.Laws.{format, decode_token-format}
use blockade.Lightning.Verifier.{
  Verifier, World, mint_macaroon, l402_challenge, issue_challenge, verify_proof,
}
use blockade.Lightning.Accepts.{verify_proof_complete}

module _ {M E S : Type 0} (v : Verifier M E S) where
  -- The parts of a challenge for the request `r` in the world `w`: the invoice at the request's
  -- price, and a macaroon over its payment hash.
  pub record Challenges (r : Request) (w : World E S) (pay_req hash : Bytes) (m : M) (raw : Bytes)
      : Type 0 where
    pub price : ℤ
    pub prices : positive_price r ≡ ok price
    pub invoices :
        (v.services.rpc_add_invoice price (bytes "btc-paywall: " ++ r.path) w.env).0
        ≡ ok (pay_req, hash)
    pub mints : v.lib.mint v.root_key (Hex.encode hash) (bytes "btc-paywall") ≡ ok m
    pub marshals : v.lib.marshal_binary m ≡ ok raw

  -- Where a challenge is issued, it is written with status 402 and carries the invoice at the price
  -- in the request's context and a macaroon over that invoice's payment hash.
  pub issue_challenge-Challenges :
      (r : Request) (w w' : Writer) (world : World E S)
      → (issue_challenge v r w world).0 ≡ ok w'
      → (pay_req : Bytes) × (hash : Bytes) × (m : M) × (raw : Bytes) × Challenges r world pay_req
          hash m raw
        × (w'
            ≡ write_header 402
                (set_header "Www-Authenticate" (l402_challenge (Base64.encode raw) pay_req) w))
  unfolding issue_challenge mint_macaroon Client.add_invoice
  issue_challenge-Challenges r w w' world h = elim (Result-cases (positive_price r)) [
    | inr (e, p) ↦ absurd (ground (arith, p))
    | inl (price, p) ↦
        elim (Result-cases
          (v.services.rpc_add_invoice price (bytes "btc-paywall: " ++ r.path) world.env).0) [
            | inr (e, i) ↦ absurd (ground (arith, p, i))
            | inl ((pay_req, hash), i) ↦
                elim (Result-cases
                  (v.lib.mint v.root_key (Hex.encode hash) (bytes "btc-paywall"))) [
                    | inr (e, q) ↦ absurd (ground (arith, p, i, q))
                    | inl (m, q) ↦ elim (Result-cases (v.lib.marshal_binary m)) [
                      | inr (e, k) ↦ absurd (ground (arith, p, i, q, k))
                      | inl (raw, k) ↦ (
                        pay_req,
                        hash,
                        m,
                        raw,
                        record { price = price; prices = p; invoices = i; mints = q; marshals = k },
                        ground (arith, p, i, q, k),
                      )
                    ]
                  ]
          ]
  ]

  module _ (mac : MacaroonLaws v.lib) (m : M) (raw preimage : Bytes) where
    names-hash :
        (hash : Bytes)
        → IsBytes hash
        → length hash ≡ 32
        → v.lib.mint v.root_key (Hex.encode hash) (bytes "btc-paywall") ≡ ok m
        → payment_hash_from_id v.lib m ≡ ok hash
    unfolding payment_hash_from_id
    names-hash hash hb hl mints =
        ground (arith, mac.id_mint _ _ _ m mints, Hex.Laws.decode-encode hash hb)

  -- A client gets through: where a challenge was issued for an invoice whose preimage is `preimage`,
  -- and lnd reports the invoice as settled, the token of the challenge's macaroon and the preimage
  -- is accepted, unless it has been spent. The store is assumed to keep its contract and not to fail,
  -- the macaroon library to read back what it writes, and the preimage to have 32 bytes.
  pub paid_challenge_accepted :
      (spent : S → Bytes → Bool) (laws : StoreLaws v.st spent) (reliable : IsReliable v.st)
      (mac : MacaroonLaws v.lib) (r : Request) (issued : World E S) (pay_req : Bytes) (m : M)
      (raw preimage : Bytes)
      → Challenges r issued pay_req (sum256 preimage) m raw
      → IsBytes preimage
      → length preimage ≡ 32
      → (now : ℕ) (w : World E S) (inv : Invoice)
      → (v.services.rpc_lookup_invoice (sum256 preimage) w.env).0 ≡ ok inv
      → inv.state ≡ settled
      → spent w.store (Hex.encode (sum256 preimage)) ≡ false
      → (verify_proof v now (format raw preimage) w).0 ≡ ok true
  paid_challenge_accepted spent laws reliable mac r issued pay_req m raw preimage c pb pl now w inv
        reads settles fresh =
      verify_proof_complete v spent laws reliable now (format raw preimage) (sum256 preimage) w
        (record { macaroon = m; preimage = preimage }) inv
        (record {
          decodes =
              decode_token-format v.lib m raw preimage (mac.unmarshal_marshal m raw c.marshals)
                (mac.marshal_bytes m raw c.marshals) pb pl;
          names =
              names-hash mac m raw preimage (sum256 preimage) (IsBytes-sum256 preimage)
                (length-sum256 preimage) c.mints;
          opens = refl;
          reads = reads;
          settles = settles;
          fresh = fresh;
        })
