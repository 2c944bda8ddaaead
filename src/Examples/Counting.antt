-- ===== src/Examples/Counting.antt =====
-- A run of the metered proxy: a request that has paid, a cleanup of the limiters, and one that has not.
use blockade.Prelude.{length, All, bytes, ℕ, ◌^◌, ◌<◌, ◌≡◌, refl, some, List, [], ◌∷◌, arith}
use blockade.Prelude.Int.{pos}
use blockade.Store.Mem.{MemStore}
use blockade.Store.Principal.{MemPrincipalStore}
use blockade.Lightning.Verifier.{World}
use blockade.Proxy.Handler.{State, anon_count}
use blockade.Proxy.Lifecycle.{Event, request, limiter_cleanup, step, run}
use blockade.Proxy.Anonymous.Run.{IsAnonymous, asks, ticks, sent_from, anon_count_exact}
use blockade.Examples.Computing.{computing}
use blockade.Examples.Fixtures.{handler, metering, start, get_with, paid_request}

abbrev events : List Event
events = request 0 paid_request ∷ limiter_cleanup 5 ∷ request 9 (get_with []) ∷ []

abbrev after : State (World ℕ MemStore) MemPrincipalStore ℕ
after = run (handler (some metering)) start events

anonymous : All IsAnonymous events
unfolding computing
anonymous = (asks 0 paid_request refl, (ticks 5, (asks 9 (get_with []) refl, tt)))

few : length after.forwards < 2 ^ 63
unfolding computing run step
few = ground arith

one_sent : sent_from (bytes "10.0.0.7") after.forwards ≡ 1
unfolding computing run step sent_from
one_sent = refl

anon_count_exact_example :
    anon_count (bytes "10.0.0.7") after.anon_counts
    ≡ pos (sent_from (bytes "10.0.0.7") after.forwards)
anon_count_exact_example =
    anon_count_exact (handler (some metering)) metering refl start events refl refl anonymous few
      (bytes "10.0.0.7")
