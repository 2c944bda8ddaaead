-- ===== src/Proxy/Answers.antt =====
-- What internal/proxy/proxy.go writes to a response, over any property of it.
pub mod Toll
pub mod Metered
pub mod Server
pub mod Backends
use blockade.Prelude.{eqb, Bytes, bytes, ℕ, ◌≡◌, Bool, true, ◌||◌}
use blockade.Std.Http.{Request, Writer, Body, set_header, write_header, write, error_with}
use blockade.Payment.{payment_required}
use blockade.Proxy.Handler.{Handler, State, Route, credential_header, forward}

-- The statuses that the proxy itself answers an error with.
abbrev pub is_error_status : ℕ → Bool
is_error_status c = eqb c 400 || (eqb c 401 || (eqb c 404 || (eqb c 429 || eqb c 500)))

module _ {V P N F : Type 0} (h : Handler V P N F) where
  -- `I` holds of a response on which nothing was written yet, and of the state then, and keeps
  -- holding until a request is sent on; `O` holds of each way in which the handler finishes one.
  pub record Closed (I : Writer → State V P N → Type 0) (O : Writer × State V P N → Type 0)
      : Type 0 where
    pub moves : (w : Writer) (s s' : State V P N) → s'.forwards ≡ s.forwards → I w s → I w s'
    pub fails :
        (b : Body) (c : ℕ) (w : Writer) (s : State V P N)
        → is_error_status c ≡ true
        → I w s
        → O (error_with b c w, s)
    pub sends :
        (rt : Route) (r : Request) (w : Writer) (s : State V P N) → I w s → O (forward h rt r w s)
    pub challenges :
        (c : Bytes) (w : Writer) (s : State V P N) → I w s → O (payment_required c w, s)
    pub enrols :
        (b : Body) (cred : Bytes) (w : Writer) (s : State V P N)
        → I w s
        → O (
          write b (
              write_header 200 (
                set_header "Content-Type"
                  (bytes "application/json")
                  (set_header credential_header cred w))),
          s,
        )
    pub settles :
        (b : Body) (w : Writer) (s : State V P N)
        → I w s
        → O (write b (set_header "Content-Type" (bytes "application/json") w), s)
    pub preflights : (w : Writer) (s : State V P N) → I w s → O (write_header 204 w, s)
