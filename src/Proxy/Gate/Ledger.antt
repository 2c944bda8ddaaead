-- ===== src/Proxy/Gate/Ledger.antt =====
-- ServeHTTP of internal/proxy/proxy.go over a run: what is sent on and what was paid.
use blockade.Prelude.{
  Bool-cases, length, length-append, All, Bytes, ◌+◌, ◌≡◌, ap, ◌∙◌, ◌≢◌, inl, inr, Bool, true,
  false, Option, some, List, [], ◌∷◌, arith,
}
use blockade.Std.Http.{fresh_writer}
use blockade.Payment.{SingleUse, SingleUseIssuer}
use blockade.Proxy.Handler.{Handler, State, Metering}
use blockade.Proxy.Lifecycle.{
  Event, request, anon_cleanup, limiter_cleanup, anon_tick, limiter_tick, step, run,
}
use blockade.Proxy.Gate.{Gate, shut, passed, Keeps}
use blockade.Proxy.Gate.Server.{serve_http-Gate, step-Keeps}

-- No key stands twice in the list.
abbrev pub Distinct : List Bytes → Type 0
Distinct [] = Unit {0}
Distinct (k ∷ ks) = All (λ j. k ≢ j) ks × Distinct ks

-- A key that is not spent is none of those that are.
none_of :
    {V : Type 0} (spent : V → Bytes → Bool) (v : V) (k : Bytes) (keys : List Bytes)
    → spent v k ≡ false
    → All (λ j. spent v j ≡ true) keys
    → All (λ j. k ≢ j) keys
none_of spent v k [] e h = tt
none_of spent v k (j ∷ keys) e h = (λ same. cc (same, e, h.0), none_of spent v k keys e h.1)

module _ {V P N : Type 0} (spent : V → Bytes → Bool) where
  -- The keys that were spent between `s` and `s'`: as many, and all different, as requests were sent
  -- on.
  pub record Ledger (s s' : State V P N) (keys : List Bytes) : Type 0 where
    pub balances : length s'.forwards ≡ length keys + length s.forwards
    pub distinct : Distinct keys
    pub fresh : All (λ k. spent s.backend k ≡ false) keys
    pub gone : All (λ k. spent s'.backend k ≡ true) keys

  pub still_gone :
      (s s' : State V P N) (key : Bytes → Option Bytes) (keys : List Bytes)
      → Keeps key spent s s'
      → All (λ k. spent s.backend k ≡ true) keys
      → All (λ k. spent s'.backend k ≡ true) keys
  still_gone s s' key [] keeps h = tt
  still_gone s s' key (k ∷ ks) keeps h = (keeps.keeps k h.0, still_gone s s' key ks keeps h.1)

  not_spent :
      (s s' : State V P N) (key : Bytes → Option Bytes) (k : Bytes)
      → Keeps key spent s s'
      → spent s'.backend k ≡ false
      → spent s.backend k ≡ false
  not_spent s s' key k keeps e = elim (Bool-cases (spent s.backend k)) [
    | inr n ↦ n
    | inl y ↦ absurd (cc (keeps.keeps k y, e))
  ]

  -- One more step: nothing is sent on, or one request with a fresh key.
  pay-Ledger :
      (key : Bytes → Option Bytes) (token : Option Bytes) (s s' s2 : State V P N)
      (keys : List Bytes)
      → Keeps key spent s s'
      → Keeps key spent s' s2
      → Gate key spent token s' s2
      → Ledger s s' keys
      → (more : List Bytes) × Ledger s s2 more
  pay-Ledger key token s s' s2 keys before after (shut e) l = (
    keys,
    record {
      balances = ap length e ∙ l.balances;
      distinct = l.distinct;
      fresh = l.fresh;
      gone = still_gone s' s2 key keys after l.gone;
    },
  )
  pay-Ledger key token s s' s2 keys before after (passed t names pays sent) l = (
    pays.paid ∷ keys,
    record {
      balances =
          omega
            (arith, ap length sent.logs, length-append s'.forwards (sent.sent ∷ []), l.balances);
      distinct = (none_of spent s'.backend pays.paid keys pays.fresh l.gone, l.distinct);
      fresh = (not_spent s s' key pays.paid before pays.fresh, l.fresh);
      gone = (pays.gone, still_gone s' s2 key keys after l.gone);
    },
  )

module _ {V P N F : Type 0} (h : Handler V P N F) (key : Bytes → Option Bytes)
    (spent : V → Bytes → Bool) (single : SingleUse key spent h.verifier)
    (issuer : (m : Metering V P)
      → h.metering ≡ some m
      → SingleUseIssuer key spent m.cred_issuer) where
  pub step-Ledger :
      (s s' : State V P N) (e : Event) (keys : List Bytes)
      → Keeps key spent s s'
      → Ledger spent s s' keys
      → (more : List Bytes) × Ledger spent s (step h s' e) more
  unfolding step anon_tick limiter_tick
  step-Ledger s s' (request now r) keys before l =
      let (gate, after) = serve_http-Gate h key spent single issuer now r fresh_writer s' in
      pay-Ledger spent key _ s s' _ keys before after gate l
  step-Ledger s s' anon_cleanup keys before l = (
    keys,
    record { balances = l.balances; distinct = l.distinct; fresh = l.fresh; gone = l.gone },
  )
  step-Ledger s s' (limiter_cleanup now) keys before l = (
    keys,
    record { balances = l.balances; distinct = l.distinct; fresh = l.fresh; gone = l.gone },
  )

  continue-Ledger :
      (s s' : State V P N) (es : List Event) (keys : List Bytes)
      → Keeps key spent s s'
      → Ledger spent s s' keys
      → (more : List Bytes) × Ledger spent s (run h s' es) more
  unfolding run
  continue-Ledger s s' [] keys before l = (keys, l)
  continue-Ledger s s' (e ∷ es) keys before l =
      let (more, l') = step-Ledger s s' e keys before l in
      let after = step-Keeps h key spent single issuer s' e in
      continue-Ledger s (step h s' e) es more
        (record { keeps = λ j q. after.keeps j (before.keeps j q) }) l'

  -- Nothing is sent on that was not paid for: after any run of requests and cleanups, as many
  -- different keys were spent as requests were sent on, keys that were not spent before the run. The
  -- backends accept each payment once.
  pub run-Ledger :
      (s : State V P N) (es : List Event) → (keys : List Bytes) × Ledger spent s (run h s es) keys
  run-Ledger s es =
      continue-Ledger s s es [] (record { keeps = λ j q. q })
        (record { balances = omega arith; distinct = tt; fresh = tt; gone = tt })
