-- ===== src/Proxy/Settlement.antt =====
-- The settlement endpoint of internal/proxy/proxy.go with the Lightning backend.
use blockade.Prelude.{
  Bool-cases, Option-cases, ok, Result-cases, ◌==◌, Bytes, bytes, ℕ, ◌≡◌, refl, ◌↔◌, inl, inr, true,
  false, some, [], ◌∷◌, arith,
}
use blockade.Std.Hex
use blockade.Std.Http.{
  Request, Body, str, flag, json, fresh_writer, get, set_header, write_header, write, error,
  error_with,
}
use blockade.Config.{CurveConfig}
use blockade.Store.Principal.{PrincipalStore}
use blockade.Lightning.Services.{Invoice}
use blockade.Lightning.Client
use blockade.Lightning.Verifier.{Verifier, World, lookup_settlement}
use blockade.Lightning.Interface.{lightning_issuer}
use blockade.Lightning.Settlement.{Reveals, lookup_settlement-Reveals}
use blockade.Proxy.Handler.{Handler, State}
use blockade.Proxy.Serve.{set_cors, answer_settlement, handle_settlement, dispatch, serve_http}

-- What the endpoint writes for a settled invoice.
abbrev pub settled_body : Bytes → Body
settled_body p = json (("settled", flag true) ∷ ("preimage", str p) ∷ [])

module _ {M E S P N F : Type 0} (v : Verifier M E S) (base : Handler (World E S) P N F)
    (curve : CurveConfig) (principals : PrincipalStore P) where
  -- The handler with metering and the Lightning backend.
  abbrev pub metered_handler : Handler (World E S) P N F
  metered_handler = record base {
    metering =
        some (record { curve = curve; cred_issuer = lightning_issuer v; principals = principals });
  }

  -- `r` asks the endpoint, with a payment hash.
  pub record Inquires (r : Request) : Type 0 where
    pub real : (r.method == bytes "OPTIONS") ≡ false
    pub goes : (r.path == bytes "/l402/settlement") ≡ true

  reaches :
      (now : ℕ) (r : Request) (s : State (World E S) P N)
      → Inquires r
      → serve_http metered_handler now r fresh_writer s
        ≡ handle_settlement metered_handler (lightning_issuer v) r (set_cors fresh_writer) s
  unfolding serve_http dispatch
  reaches now r s q = rw (q.real, q.goes, serve_http, dispatch) refl

  answer-settled :
      (hash p : Bytes) (s : State (World E S) P N)
      → (answer_settlement metered_handler
          (lightning_issuer v)
          hash
          (set_cors fresh_writer)
          s).0.body
        ≡ settled_body p ∷ []
      → (lookup_settlement v hash s.backend).0 ≡ ok (some p)
  unfolding answer_settlement error error_with write write_header set_header set_cors
  answer-settled hash p s h = elim (Result-cases (lookup_settlement v hash s.backend).0) [
    | inr (e, f) ↦ absurd (ground (arith, f))
    | inl (found, f) ↦ elim (Option-cases found) [
      | inl k ↦ absurd (ground (arith, f, k))
      | inr (q, k) ↦ ground (arith, f, k)
    ]
  ]

  endpoint-settled :
      (r : Request) (p : Bytes) (s : State (World E S) P N)
      → (handle_settlement metered_handler (lightning_issuer v) r (set_cors fresh_writer) s).0.body
        ≡ settled_body p ∷ []
      → ((get "payment_hash" r.query == []) ≡ false)
        × ((lookup_settlement v (get "payment_hash" r.query) s.backend).0 ≡ ok (some p))
  unfolding handle_settlement error error_with write write_header set_header set_cors
  endpoint-settled r p s h =
      let hash = get "payment_hash" r.query in
      elim (Bool-cases (hash == [])) [
        | inl e ↦ absurd (ground (arith, e))
        | inr e ↦ elim (Result-cases (Hex.decode hash)) [
          | inr (x, f) ↦ absurd (ground (arith, e, f))
          | inl (ph, f) ↦ (e, answer-settled hash p s (rw (e, f, handle_settlement) at h))
        ]
      ]

  endpoint_complete :
      (r : Request) (p ph : Bytes) (inv : Invoice) (s : State (World E S) P N)
      → (get "payment_hash" r.query == []) ≡ false
      → Reveals v (get "payment_hash" r.query) p s.backend ph inv
      → (handle_settlement metered_handler (lightning_issuer v) r (set_cors fresh_writer) s).0.body
        ≡ settled_body p ∷ []
  unfolding handle_settlement answer_settlement lookup_settlement Client.lookup_settlement write
      write_header set_header set_cors
  endpoint_complete r p ph inv s filled c =
      ground (arith, filled, c.decodes, c.reads, c.settles, c.shows)

  spends-nothing :
      (r : Request) (s : State (World E S) P N)
      → let s' =
          (handle_settlement metered_handler (lightning_issuer v) r (set_cors fresh_writer) s).1 in
        (s'.forwards ≡ s.forwards) × (s'.backend.store ≡ s.backend.store)
  unfolding handle_settlement answer_settlement lookup_settlement Client.lookup_settlement
  spends-nothing r s = ground arith

  -- The settlement endpoint gives the preimage `p` out exactly if the query has a payment hash in
  -- hexadecimal, lnd reports the invoice of that hash as settled, and `p` is the invoice's preimage in
  -- hexadecimal. Whatever the query, nothing is sent on, and the store is as it was.
  pub settlement_iff :
      (now : ℕ) (r : Request) (p : Bytes) (s : State (World E S) P N)
      → Inquires r
      → let (w', s') = serve_http metered_handler now r fresh_writer s in
        ((w'.body ≡ settled_body p ∷ []) ↔ (
          ((get "payment_hash" r.query == []) ≡ false)
          × ((ph : Bytes) × (inv : Invoice) × Reveals v
                (get "payment_hash" r.query)
                p
                s.backend
                ph
                inv)))
        × (s'.forwards ≡ s.forwards)
        × (s'.backend.store ≡ s.backend.store)
  settlement_iff now r p s q =
      let (no_forward, same_store) = spends-nothing r s in
      rw (reaches now r s q) (
        (
          λ h.
              let (filled, found) = endpoint-settled r p s h in
              (filled, lookup_settlement-Reveals v (get "payment_hash" r.query) p s.backend found),
          λ (filled, (ph, inv, c)). endpoint_complete r p ph inv s filled c,
        ),
        no_forward,
        same_store,
      )
