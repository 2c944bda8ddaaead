-- ===== src/Examples/Limits.antt =====
-- A rate limiter with no requests left.
use blockade.Prelude.{bytes, Map, ℕ, ◌≡◌, refl, none, some, [], ◌∷◌}
use blockade.Std.Http.{get, fresh_writer}
use blockade.Store.Mem.{MemStore}
use blockade.Store.Principal.{MemPrincipalStore}
use blockade.Lightning.Verifier.{World}
use blockade.Proxy.Handler.{State, IpLimiter}
use blockade.Proxy.Flat.{serve_flat}
use blockade.Proxy.Metered.{serve_metered}
use blockade.Proxy.Limits.{OverLimit, TurnedAway, limit-TurnedAway}
use blockade.Examples.Computing.{computing}
use blockade.Examples.Fixtures.{handler, metering, route, start, get_with}

abbrev used_up : Map (IpLimiter ℕ)
used_up = (bytes "10.0.0.7", record { limiter = 0; last_seen = 3 }) ∷ []

abbrev limited : State (World ℕ MemStore) MemPrincipalStore ℕ
limited = record start { limiters = some used_up }

bare_request-OverLimit : OverLimit (handler none) 5 (get_with []) limited used_up
unfolding computing
bare_request-OverLimit = record { limits = refl; denies = refl; bare = refl }

no_credential : get "L402-Credential" (get_with []).header ≡ []
unfolding computing
no_credential = refl

limit-TurnedAway_example :
    TurnedAway
      (handler none)
      5
      (get_with [])
      limited
      used_up
      (serve_flat (handler none) 5 (get_with []) fresh_writer route limited)
    × TurnedAway
        (handler none)
        5
        (get_with [])
        limited
        used_up
        (serve_metered (handler none) metering 5 (get_with []) fresh_writer route limited)
limit-TurnedAway_example =
    limit-TurnedAway (handler none) metering 5 (get_with []) fresh_writer route limited used_up refl
      no_credential bare_request-OverLimit
