-- ===== src/Startup/Main.antt =====
-- The outcome of main (cmd/proxy/main.go) for a configuration that validate accepts.
use blockade.Prelude.{◌≡◌, Option, none, some}
use blockade.Config.{Config, BitcoindConfig, LndConfig}
use blockade.Config.Validity.{OneBackend}
use blockade.Startup.Serves.{Serves}

pub no_backend :
    (l : Option LndConfig) (b : Option BitcoindConfig) → l ≡ none → b ≡ none → OneBackend l b → ⊥
no_backend none none e f y = y
no_backend none (some b) e f y = cc
no_backend (some l) b e f y = cc
