-- ===== src/Examples/Balancing.antt =====
-- What main serves on the concrete machine, over a run.
use blockade.Prelude.{ok, err, bytes, ◌≡◌, refl, List, [], ◌∷◌}
use blockade.Config.{validate, load}
use blockade.Proxy.Lifecycle.{request, anon_cleanup, new_handler, new_state, enable_curve}
use blockade.Proxy.Handler.{build_routes}
use blockade.Lightning.Dial as Dial
use blockade.Lightning.Verifier.{new_verifier}
use blockade.Startup.Backing.{choose_stores}
use blockade.Startup.Life.{Happening, event, tick}
use blockade.Startup.Paid.{main-Balanced}
use blockade.Startup.Accounts.{Balanced}
use blockade.Startup.{Started, without_backend, with_curve, build, start_lightning, start, main}
use blockade.Examples.Computing.{computing}
use blockade.Examples.Fixtures.{paid_request}
use blockade.Examples.Starting.{machine}
use blockade.Examples.Tables.{tables-SqlLaws}

abbrev served : Started machine
served = elim (main machine (bytes "config.yaml")) [ ok st ↦ st | err e ↦ without_backend ]

is_served : main machine (bytes "config.yaml") ≡ ok served
unfolding computing main load validate start choose_stores start_lightning build new_handler
    build_routes with_curve enable_curve new_state Dial.new_client new_verifier
is_served = refl

abbrev events : List Happening
events =
    event (request 0 paid_request)
    ∷ event anon_cleanup
    ∷ tick 5
    ∷ event (request 9 paid_request)
    ∷ []

main-Balanced_example :
    Balanced machine (λ d. d.keys) (λ d. d.addresses) tables-SqlLaws events served
main-Balanced_example =
    main-Balanced machine (λ d. d.keys) (λ d. d.addresses) tables-SqlLaws (bytes "config.yaml")
      served events is_served
