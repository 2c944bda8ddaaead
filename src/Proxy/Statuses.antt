-- ===== src/Proxy/Statuses.antt =====
-- The status with which ServeHTTP of internal/proxy/proxy.go answers.
use blockade.Prelude.{
  eqb, Bytes, bytes, ℕ, ◌≡◌, refl, ◌∙◌, ◌⊎◌, inl, inr, Bool, true, ◌||◌, Option, none, some, List,
  [], ◌∷◌, ◌++◌, arith,
}
use blockade.Std.Http.{
  Header, Request, Writer, Reply, Body, fresh_writer, set_header, write_header, write, error_with,
  copy_reply, copy_exchange, send_early, Exchange, raw, del,
}
use blockade.Payment.{AsksPayment, AsksStake}
use blockade.Proxy.Answers.{Closed, is_error_status}
use blockade.Proxy.Answers.Server.{serve_http-Ends}
use blockade.Proxy.Handler.{Handler, State, Metering, credential_header, forward, modify_response}
use blockade.Proxy.Serve.{set_cors, serve_http}

-- The statuses of the proxy's own answers.
abbrev pub is_own_status : ℕ → Bool
is_own_status c = is_error_status c || (eqb c 200 || (eqb c 204 || eqb c 402))

-- The status for what an upstream answered.
pub upstream_status : Option Reply → ℕ
upstream_status none = 502
upstream_status (some r) = r.code

write_header-sent :
    (c : ℕ) (w : Writer) → w.sent ≡ none → (write_header c w).sent ≡ some (c, w.header)
unfolding write_header
write_header-sent c w e = ground (arith, e)

-- A body that is written behind a status leaves it.
write-sent :
    (b : Body) (c : ℕ) (w : Writer)
    → w.sent ≡ none
    → (write b (write_header c w)).sent ≡ some (c, w.header)
unfolding write write_header
write-sent b c w e = ground (arith, e)

copy_reply-sent :
    (o : Option Reply) (w : Writer)
    → w.sent ≡ none
    → (k : Header) × ((copy_reply modify_response o w).sent ≡ some (upstream_status o, k))
unfolding copy_reply upstream_status
copy_reply-sent none w e = (_, write_header-sent 502 w e)
copy_reply-sent (some r) w e = (
  _,
  write-sent (raw r.content) r.code (record w { header = w.header ++ modify_response r.header }) e,
)

send_early-sent : (hs : List Header) (w : Writer) → (send_early hs w).sent ≡ w.sent
unfolding send_early
send_early-sent [] w = refl
send_early-sent (h ∷ hs) w = send_early-sent hs (record w { header = [] })

copy_exchange-sent :
    (x : Exchange) (w : Writer)
    → w.sent ≡ none
    → (k : Header) × ((copy_exchange modify_response x w).sent ≡ some (upstream_status x.reply, k))
unfolding copy_exchange
copy_exchange-sent x w e =
    copy_reply-sent x.reply (send_early x.early w) (send_early-sent x.early w ∙ e)

error_with-sent :
    (b : Body) (c : ℕ) (w : Writer)
    → w.sent ≡ none
    → (k : Header) × ((error_with b c w).sent ≡ some (c, k))
unfolding error_with set_header
error_with-sent b c w e =
    let plain : Writer =
      set_header "Content-Type" (bytes "text/plain; charset=utf-8")
        (record w { header = del "Content-Length" w.header }) in
    (_, write-sent b c (set_header "X-Content-Type-Options" (bytes "nosniff") plain) e)

abbrev as_json : Writer → Writer
as_json = set_header "Content-Type" (bytes "application/json")

module _ {V P N F : Type 0} (h : Handler V P N F) where
  -- The proxy has answered by itself: nothing was sent on, and a status of its own was written.
  pub record AnswersItself (s : State V P N) (a : Writer × State V P N) : Type 0 where
    pub own_code : ℕ
    pub own_header : Header
    pub writes : a.0.sent ≡ some (own_code, own_header)
    pub known : is_own_status own_code ≡ true
    pub silent : a.1.forwards ≡ s.forwards

  -- One request was sent on, and the status of its upstream's answer was written.
  pub record AnswersFor (s : State V P N) (a : Writer × State V P N) : Type 0 where
    pub to : Bytes
    pub sent_on : Request
    pub reply_header : Header
    pub relays :
        a.0.sent ≡ some (upstream_status (h.exchange to sent_on s.forwards).reply, reply_header)
    pub adds : a.1.forwards ≡ s.forwards ++ record { upstream = to; request = sent_on } ∷ []

  abbrev pub Answered : State V P N → Writer × State V P N → Type 0
  Answered s a = AnswersItself s a ⊎ AnswersFor s a

  module _ (s : State V P N) where
    abbrev Unanswered : Writer → State V P N → Type 0
    Unanswered w s' = (w.sent ≡ none) × (s'.forwards ≡ s.forwards)

    itself :
        (w : Writer) (s' : State V P N) (c : ℕ) (k : Header)
        → w.sent ≡ some (c, k)
        → is_own_status c ≡ true
        → s'.forwards ≡ s.forwards
        → Answered s (w, s')
    itself w s' c k e known silent =
        inl (record { own_code = c; own_header = k; writes = e; known = known; silent = silent })

    statuses-Closed : Closed h Unanswered (Answered s)
    unfolding write write_header set_header forward
    statuses-Closed = record {
      moves = λ w s1 s2 e u. (u.0, ground (arith, e, u.1));
      fails = λ b c w s' known u.
          let (k, e) = error_with-sent b c w u.0 in itself _ s' c k e (ground (arith, known)) u.1;
      sends = λ rt r w s' u.
          let (k, e) = copy_exchange-sent (h.exchange rt.upstream r s'.forwards) w u.0 in
          inr (record {
            to = rt.upstream;
            sent_on = r;
            reply_header = k;
            relays = rw (← u.1) e;
            adds = rw (← u.1) refl;
          });
      challenges = λ c w s' u.
          itself _ s' 402 _ (write_header-sent 402 (set_header "Www-Authenticate" c w) u.0) refl
            u.1;
      enrols = λ b cred w s' u.
          itself _ s' 200 _ (write-sent b 200 (as_json (set_header credential_header cred w)) u.0)
            refl u.1;
      settles = λ b w s' u. itself _ s' 200 _ (write_header-sent 200 (as_json w) u.0) refl u.1;
      preflights = λ w s' u. itself _ s' 204 _ (write_header-sent 204 w u.0) refl u.1;
    }

  -- Every request is answered, if the backend's challenges are a status 402: either nothing is sent
  -- on, and a status that the proxy itself answers with is written; or exactly one request is sent
  -- on, and the status of its upstream's answer is written, 502 where the exchange failed.
  pub serve_http-answers :
      AsksPayment h.verifier
      → ((m : Metering V P) → h.metering ≡ some m → AsksStake m.cred_issuer)
      → (now : ℕ) (r : Request) (s : State V P N) → Answered s (serve_http h now r fresh_writer s)
  unfolding set_cors set_header
  serve_http-answers asks stakes now r s =
      serve_http-Ends h (Unanswered s) (Answered s) (statuses-Closed s) asks stakes now r
        fresh_writer s (refl, refl)
