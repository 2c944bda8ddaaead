-- ===== src/Proxy/Anonymous/Run.antt =====
-- The anonymous counts of internal/proxy/proxy.go over a run of requests.
use blockade.Prelude.{
  if◌then◌else◌, Bool-cases, length, length-append, All, ◌==◌, Bytes, eq_iff, Map, lookup-insert,
  lookup, ℕ, suc, ◌^◌, ◌≤◌, ◌<◌, ◌≡◌, refl, ◌∙◌, inl, inr, some, List, [], ◌∷◌, ◌++◌, arith,
}
use blockade.Prelude.Int.{ℤ, pos, wrap64, ◌+ℤ◌, wrap64_fits}
use blockade.Std.Http.{Header, Request, get, del}
use blockade.Proxy.Anonymous.{CountedOnce, neither, both, serve_http-CountedOnce}
use blockade.Proxy.Handler.{
  Handler, State, Metering, Forward, authorization_header, credential_header, client_ip, anon_count,
  increment_anon_count,
}
use blockade.Proxy.Lifecycle.{Event, request, limiter_cleanup, limiter_tick, step, run}

-- The requests that were sent on and that came from `ip`.
unfoldable pub sent_from : Bytes → List Forward → ℕ
sent_from ip [] = 0
sent_from ip (f ∷ fs) = let n = sent_from ip fs in if client_ip f.request == ip then suc n else n

sent_from-append :
    (ip : Bytes) (fs : List Forward) (f : Forward)
    → sent_from ip (fs ++ f ∷ [])
      ≡ (if client_ip f.request == ip then suc (sent_from ip fs) else sent_from ip fs)
unfolding sent_from
sent_from-append ip [] f = refl
sent_from-append ip (g ∷ fs) f = ground (arith, sent_from-append ip fs f)

sent_from-le : (ip : Bytes) (fs : List Forward) → sent_from ip fs ≤ length fs
unfolding sent_from
sent_from-le ip [] = omega arith
sent_from-le ip (f ∷ fs) = ground (arith, sent_from-le ip fs)

anon_count-increment :
    (k ip : Bytes) (counts : Map ℤ)
    → anon_count ip (increment_anon_count k counts)
      ≡ (if k == ip then wrap64 (anon_count k counts +ℤ pos 1) else anon_count ip counts)
unfolding anon_count increment_anon_count
anon_count-increment k ip counts =
    ground (arith, lookup-insert k ip (wrap64 (anon_count k counts +ℤ pos 1)) counts)

-- One more is counted without a wrap where the new count fits.
pub count_fits : (n : ℕ) → suc n < 2 ^ 63 → wrap64 (pos n +ℤ pos 1) ≡ pos (suc n)
unfolding ◌+ℤ◌
count_fits n few = wrap64_fits (pos n +ℤ pos 1) (ground arith) ∙ ground arith

same_address : (r : Request) (k : Header) → client_ip (record r { header = k }) ≡ client_ip r
unfolding client_ip
same_address r k = refl

starts : (ip : Bytes) → anon_count ip [] ≡ pos (sent_from ip [])
unfolding anon_count sent_from lookup
starts ip = refl

module _ {V P N : Type 0} where
  -- The count of each address is the number of its requests that were sent on, where these are fewer
  -- than 2 ^ 63.
  abbrev pub CountsSent : State V P N → Type 0
  CountsSent s =
      length s.forwards < 2 ^ 63
      → (ip : Bytes) → anon_count ip s.anon_counts ≡ pos (sent_from ip s.forwards)

  step-CountsSent :
      (r : Request) (s s' : State V P N) → CountedOnce r s s' → CountsSent s → CountsSent s'
  step-CountsSent r s s' (neither f c) counts few ip = rw (f, c) (counts (rw f at few) ip)
  step-CountsSent r s s' (both to f c) counts few ip =
      let longer = length-append s.forwards (
        record { upstream = to; request = record r { header = del authorization_header r.header } }
        ∷ []) in
      let fewer : suc (length s.forwards) < 2 ^ 63 = omega (arith, rw f at few, longer) in
      let counted = counts (omega (arith, fewer)) in
      let bound = sent_from-le ip s.forwards in
      rw
        (
          f,
          c,
          anon_count-increment (client_ip r) ip s.anon_counts,
          sent_from-append ip s.forwards _,
          same_address r (del authorization_header r.header),
        )
        (elim (Bool-cases (client_ip r == ip)) [
          | inr other ↦ rw other (counted ip)
          | inl same ↦
              rw (same, (eq_iff (client_ip r) ip).0 same, counted ip)
                (count_fits (sent_from ip s.forwards) (omega (arith, fewer, bound)))
        ])

-- A request without a credential, or a tick that leaves the counts alone.
pub data IsAnonymous : Event → Type 0 where
  asks : (now : ℕ) (r : Request) → get credential_header r.header ≡ [] → IsAnonymous (request now r)
  ticks : (now : ℕ) → IsAnonymous (limiter_cleanup now)

module _ {V P N F : Type 0} (h : Handler V P N F) (m : Metering V P)
    (on : h.metering ≡ some m) where
  step-Counts :
      (s : State V P N) (e : Event) → IsAnonymous e → CountsSent s → CountsSent (step h s e)
  unfolding step limiter_tick
  step-Counts s _ (asks now r bare) counts =
      step-CountsSent r s _ (serve_http-CountedOnce h m on now r s bare) counts
  step-Counts s _ (ticks now) counts = counts

  run-CountsSent :
      (s : State V P N) (es : List Event)
      → CountsSent s
      → All IsAnonymous es
      → CountsSent (run h s es)
  unfolding run
  run-CountsSent s [] counts none_credentialed = counts
  run-CountsSent s (e ∷ es) counts (first, rest) =
      run-CountsSent (step h s e) es (step-Counts s e first counts) rest

  -- With metering, after any run of requests without a credential and of ticks of the limiters'
  -- cleanup, which starts without counts and with nothing sent on, the anonymous count of each
  -- address is the number of its requests that were sent on, if fewer than 2 ^ 63 were sent on.
  pub anon_count_exact :
      (s : State V P N) (es : List Event)
      → s.anon_counts ≡ []
      → s.forwards ≡ []
      → All IsAnonymous es
      → length (run h s es).forwards < 2 ^ 63
      → (ip : Bytes)
      → anon_count ip (run h s es).anon_counts ≡ pos (sent_from ip (run h s es).forwards)
  anon_count_exact s es no_counts nothing_sent anonymous few ip =
      run-CountsSent s es (λ f k. rw (no_counts, nothing_sent) (starts k)) anonymous few ip
