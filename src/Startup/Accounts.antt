-- ===== src/Startup/Accounts.antt =====
-- cmd/proxy/main.go and what it serves: over any run of the handler, nothing is sent on that was not
-- paid for.
use blockade.Prelude.{
  ok, Result-cases, Bytes, ℕ, ◌≡◌, refl, ◌∙◌, inl, inr, Bool, Option, none, some, List, arith,
}
use blockade.Prelude.Int.{ℤ}
use blockade.Config.{Config, CurveConfig}
use blockade.Payment.{PaymentVerifier, CredentialIssuer}
use blockade.Store.Principal.{MemPrincipalStore}
use blockade.Store.Sqlite.Tables.{SqlLaws}
use blockade.Lightning.Services.{Services}
use blockade.Lightning.Verifier as Lightning
use blockade.Lightning.Interface as LightningSide
use blockade.Lightning.Interface.{lightning_verifier, lightning_issuer}
use blockade.Lightning.AntiReplay.{lightning-SingleUse}
use blockade.Lightning.StakeReplay.{lightning-SingleUseIssuer}
use blockade.Onchain.Verifier as Onchain
use blockade.Onchain.AntiReplay as OnchainSide
use blockade.Onchain.AntiReplay.{onchain-SingleUse}
use blockade.Proxy.Handler.{Handler, State, Metering, build_routes}
use blockade.Startup.Life.{Happening, live, live-Ledger}
use blockade.Proxy.Lifecycle.{new_handler, enable_curve}
use blockade.Proxy.Gate.Ledger.{Ledger}
use blockade.Startup.Backing.{Stores, any_store, any_pending}
use blockade.Startup.Backing.Laws.{
  any_spent, any_entry, any_stored, any_store-StoreLaws, any_store-PendingLaws,
}
use blockade.Startup.{
  Machine, Started, with_lightning, with_bitcoind, without_backend, with_curve, build,
}

module _ {D M E J G B N F : Type 0} (mc : Machine D M E J G B N F) where
  module _ {V : Type 0} where
    -- A handler keeps the backend that it is built with.
    pub record Keeps (verifier : PaymentVerifier V) (issuer : Option (CredentialIssuer V))
        (h : Handler V MemPrincipalStore N F) : Type 0 where
      pub same_verifier : h.verifier ≡ verifier
      pub same_issuer :
          (m : Metering V MemPrincipalStore) → h.metering ≡ some m → issuer ≡ some m.cred_issuer

    new_handler_keeps :
        (cfg : Config F) (verifier : PaymentVerifier V) (h : Handler V MemPrincipalStore N F)
        → new_handler mc.parse mc.no_rate mc.rate mc.exchange cfg.routes verifier cfg.rate_limit
          ≡ ok h
        → (h.verifier ≡ verifier) × (h.metering ≡ none)
    unfolding new_handler
    new_handler_keeps cfg verifier h made = elim (Result-cases (build_routes mc.parse cfg.routes)) [
      | inl (rs, e) ↦ (ground (arith, e), ground (arith, e))
      | inr (x, e) ↦ absurd (ground (arith, e))
    ]

    with_curve_keeps :
        (o : Option CurveConfig) (issuer : Option (CredentialIssuer V))
        (h h' : Handler V MemPrincipalStore N F)
        → with_curve mc o issuer h ≡ ok h'
        → h.metering ≡ none
        → (h'.verifier ≡ h.verifier)
          × ((m : Metering V MemPrincipalStore)
              → h'.metering ≡ some m
              → issuer ≡ some m.cred_issuer)
    unfolding with_curve enable_curve
    with_curve_keeps none issuer h h' e bare =
        (ground (arith, e), λ m k. absurd (ground (arith, e, k)))
    with_curve_keeps (some c) none h h' e bare = absurd (ground (arith, e))
    with_curve_keeps (some c) (some ci) h h' e bare =
        (ground (arith, e), λ m k. ground (arith, e, k))

    pub build-Keeps :
        (cfg : Config F) (verifier : PaymentVerifier V) (issuer : Option (CredentialIssuer V))
        (backend : V) (h : Handler V MemPrincipalStore N F) (s : State V MemPrincipalStore N)
        → build mc cfg verifier issuer backend ≡ ok (h, s)
        → Keeps verifier issuer h
    unfolding build
    build-Keeps cfg verifier issuer backend h s built =
        elim (Result-cases (
          new_handler {P = MemPrincipalStore} mc.parse mc.no_rate mc.rate mc.exchange cfg.routes
            verifier cfg.rate_limit)) [
              | inr (x, e) ↦ absurd (ground (arith, e))
              | inl (h0, e) ↦ elim (Result-cases (with_curve mc cfg.curve issuer h0)) [
                | inr (x, k) ↦ absurd (ground (arith, e, k))
                | inl (h', k) ↦
                    let (v0, bare) = new_handler_keeps cfg verifier h0 e in
                    let (v1, issuers) = with_curve_keeps cfg.curve issuer h0 h' k bare in
                    let same : h' ≡ h = ground (arith, e, k) in
                    record {
                      same_verifier = rw (← same) (v1 ∙ v0);
                      same_issuer = rw (← same) issuers;
                    }
              ]
            ]

  module _ (used : D → Bytes → Bool) (row : D → Bytes → Option (ℤ × ℤ))
      (sql : SqlLaws mc.db used row) where
    abbrev spent : Stores D → Bytes → Bool
    spent = any_spent mc.db used row sql

    -- What is served is a backend, and after the happenings `xs` as many different keys were spent as
    -- requests were sent on.
    abbrev pub Balanced : List Happening → Started mc → Type 0
    Balanced xs (with_lightning h s) =
        (keys : List Bytes) × Ledger (LightningSide.spent_in spent) s (live h (λ now b. b) s xs)
          keys
    Balanced xs (with_bitcoind v h s) =
        (keys : List Bytes) × Ledger (OnchainSide.spent_in spent) s
          (live h (Onchain.cleanup v) s xs) keys
    Balanced xs without_backend = ⊥

    pub new_verifier_store :
        (sv : Services E) (e : E) (v : Lightning.Verifier M E (Stores D))
        → (Lightning.new_verifier mc.lib sv (any_store mc.db) e).0 ≡ ok v
        → v.st ≡ any_store mc.db
    unfolding Lightning.new_verifier
    new_verifier_store sv e v made = ground (arith, made)

    pub served_lightning :
        (v : Lightning.Verifier M E (Stores D))
        (h : Handler (Lightning.World E (Stores D)) MemPrincipalStore N F)
        (s : State (Lightning.World E (Stores D)) MemPrincipalStore N)
        → v.st ≡ any_store mc.db
        → Keeps (lightning_verifier v) (some (lightning_issuer v)) h
        → (xs : List Happening) → Balanced xs (with_lightning h s)
    served_lightning v h s same keeps xs =
        let laws = any_store-StoreLaws mc.db used row sql in
        let single = lightning-SingleUse v spent (rw same laws) in
        let stake = lightning-SingleUseIssuer v spent (rw same laws) in
        live-Ledger h (λ now b. b) (LightningSide.token_key v) (LightningSide.spent_in spent)
          (rw keeps.same_verifier single)
          (λ m k.
            let issued : lightning_issuer v ≡ m.cred_issuer =
              ground (arith, keeps.same_issuer m k) in
            rw (← issued) stake)
          (λ now b j. refl) s xs

    cleanup_spends_nothing :
        (v : Onchain.Verifier J G B (Stores D))
        → v.ps ≡ any_pending mc.db
        → (now : ℕ) (b : Onchain.World B (Stores D)) (j : Bytes)
        → spent (Onchain.cleanup v now b).store j ≡ spent b.store j
    unfolding Onchain.cleanup
    cleanup_spends_nothing v same_ps now b j =
        rw (same_ps, Onchain.cleanup)
          ((any_store-PendingLaws mc.db used row sql).prune_spent b.store now j)

    pub served_bitcoind :
        (v : Onchain.Verifier J G B (Stores D))
        (h : Handler (Onchain.World B (Stores D)) MemPrincipalStore N F)
        (s : State (Onchain.World B (Stores D)) MemPrincipalStore N)
        → v.st ≡ any_store mc.db
        → v.ps ≡ any_pending mc.db
        → Keeps (Onchain.onchain_verifier v) none h
        → (xs : List Happening) → Balanced xs (with_bitcoind v h s)
    served_bitcoind v h s same_st same_ps keeps xs =
        let laws = any_store-StoreLaws mc.db used row sql in
        let pending = any_store-PendingLaws mc.db used row sql in
        let single =
          onchain-SingleUse v (any_stored mc.db used row sql) (any_entry mc.db used row sql) spent
            (rw same_st laws) (rw (same_st, same_ps) pending) in
        live-Ledger h (Onchain.cleanup v) OnchainSide.token_key (OnchainSide.spent_in spent)
          (rw keeps.same_verifier single) (λ m k. absurd (cc (keeps.same_issuer m k)))
          (cleanup_spends_nothing v same_ps) s xs
