-- ===== src/Proxy/Cases.antt =====
-- What the shared helpers of the handler do to its state, case by case.
use blockade.Prelude.{
  Option-cases, Result, ok, Bytes, Map, insert, ℕ, ◌≡◌, ◌≢◌, ◌⊎◌, inl, inr, Bool, true, Option,
  some, arith,
}
use blockade.Prelude.Int.{ℤ}
use blockade.Std.Http.{Request, Writer}
use blockade.Price.{with_price}
use blockade.Proxy.Handler.{
  Handler, State, IpLimiter, with_proof, challenge, get_limiter, rate_limited, client_ip,
}

module _ {V P N F : Type 0} (h : Handler V P N F) where
  abbrev pub verdict : ℕ → Bytes → State V P N → Result Bool
  verdict now t s = (h.verifier.verify_proof now t s.backend).0

  abbrev pub verified : ℕ → Bytes → State V P N → State V P N
  verified now t s = record s { backend = (h.verifier.verify_proof now t s.backend).1 }

  pub with_proof_cases :
      (now : ℕ) (t : Bytes) (w : Writer) (next : State V P N → Writer × State V P N)
      (s : State V P N)
      → ((verdict now t s ≡ ok true) × (with_proof h now t w next s ≡ next (verified now t s)))
        ⊎ ((verdict now t s ≢ ok true) × ((with_proof h now t w next s).1 ≡ verified now t s))
  unfolding with_proof
  with_proof_cases now t w next s = ground arith

  abbrev pub challenged : ℕ → ℤ → Request → Writer → State V P N → State V P N
  challenged now price r w s = record s {
    backend = (h.verifier.issue_challenge now (with_price price r) w s.backend).1;
  }

  pub challenge-state :
      (now : ℕ) (price : ℤ) (r : Request) (w : Writer) (s : State V P N)
      → (challenge h now price r w s).1 ≡ challenged now price r w s
  unfolding challenge
  challenge-state now price r w s = ground arith

  -- The map after the limiter of `ip` has been asked.
  abbrev pub touched : ℕ → Bytes → Map (IpLimiter N) → Map (IpLimiter N)
  touched now ip m =
      let e = get_limiter h now ip m in
      insert ip (record e { limiter = (h.rate.allow now e.limiter).1 }) m

  -- Rate limiting answers, or it runs the rest; either way only the limiters have changed.
  pub rate_limited_cases :
      (now : ℕ) (r : Request) (w : Writer) (next : State V P N → Writer × State V P N)
      (s : State V P N)
      → (limiters : Option (Map (IpLimiter N))) × ((rate_limited h now r w next s
            ≡ next (record s { limiters = limiters }))
          ⊎ ((rate_limited h now r w next s).1 ≡ record s { limiters = limiters }))
  unfolding rate_limited
  rate_limited_cases now r w next s = elim (Option-cases s.limiters) [
    | inl e ↦ (s.limiters, inl (ground (arith, e)))
    | inr (m, e) ↦ (some (touched now (client_ip r) m), ground (arith, e))
  ]
