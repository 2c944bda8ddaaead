-- ===== src/Proxy/Cors.antt =====
-- ServeHTTP, ModifyResponse and the error answers of internal/proxy/proxy.go: the CORS header of the
-- response.
use blockade.Prelude.{
  Option-cases, Bytes, bytes, ℕ, String, ◌≡◌, refl, inl, inr, false, Option, none, some, List, [],
  ◌∷◌, ◌++◌, arith,
}
use text.Mathlib.Text.{◌==◌ as str_eq}
use blockade.Std.Http.{
  Header, Request, Writer, fresh_writer, Reply, Body, values, del, set_header, write_header, write,
  error_with, response, copy_reply, copy_exchange, send_early, Exchange,
}
use blockade.Std.Http.Laws.{header_laws}
use blockade.Payment.{AsksPayment, AsksStake}
use blockade.Proxy.Answers.{Closed}
use blockade.Proxy.Answers.Server.{serve_http-Ends}
use blockade.Proxy.Handler.{Handler, State, Metering, Forward, del_all, forward, modify_response}
use blockade.Proxy.Serve.{set_cors, serve_http}

abbrev pub origin : String
origin = "Access-Control-Allow-Origin"

abbrev pub star : List Bytes
star = bytes "*" ∷ []

-- The writer's headers, and those that were sent if any were, have the one value `*`.
pub record IsOpen (w : Writer) : Type 0 where
  pub holds : values origin w.header ≡ star
  pub sends : (c : ℕ) (k : Header) → w.sent ≡ some (c, k) → values origin k ≡ star

pub response-IsOpen : (w : Writer) → IsOpen w → values origin (response w).1 ≡ star
unfolding response
response-IsOpen w o = elim (Option-cases w.sent) [
  | inl e ↦ rw e o.holds
  | inr ((c, k), e) ↦ rw e (o.sends c k e)
]

pub set_header-IsOpen :
    (n : String) (v : Bytes) (w : Writer)
    → str_eq n origin ≡ false
    → IsOpen w
    → IsOpen (set_header n v w)
unfolding set_header
set_header-IsOpen n v w e o = record { holds = simp (header_laws, e, o.holds); sends = o.sends }

pub write_header-IsOpen : (c : ℕ) (w : Writer) → IsOpen w → IsOpen (write_header c w)
unfolding write_header
write_header-IsOpen c w o = record {
  holds = o.holds;
  sends = λ d k h. elim (Option-cases w.sent) [
    | inl e ↦ ground (arith, e, o.holds)
    | inr (p, e) ↦ o.sends d k (ground (arith, e))
  ];
}

write-IsOpen : (b : Body) (w : Writer) → IsOpen w → IsOpen (write b w)
unfolding write
write-IsOpen b w o =
    let o' = write_header-IsOpen 200 w o in record { holds = o'.holds; sends = o'.sends }

pub error_with-IsOpen : (b : Body) (c : ℕ) (w : Writer) → IsOpen w → IsOpen (error_with b c w)
unfolding error_with
error_with-IsOpen b c w o =
    let dropped : IsOpen (record w { header = del "Content-Length" w.header }) = record {
      holds = simp (header_laws, o.holds);
      sends = o.sends;
    } in
    write-IsOpen b _ (
      write_header-IsOpen c _ (
        set_header-IsOpen "X-Content-Type-Options" _ _ refl
          (set_header-IsOpen "Content-Type" _ _ refl dropped)))

modify-none : (k : Header) → values origin (modify_response k) ≡ []
unfolding modify_response del_all
modify-none k = simp header_laws

pub copy_reply-IsOpen :
    (o : Option Reply) (w : Writer) → IsOpen w → IsOpen (copy_reply modify_response o w)
unfolding copy_reply
copy_reply-IsOpen none w o = write_header-IsOpen 502 w o
copy_reply-IsOpen (some r) w o =
    let added : IsOpen (record w { header = w.header ++ modify_response r.header }) = record {
      holds = simp (header_laws, o.holds, modify-none r.header);
      sends = o.sends;
    } in
    write-IsOpen _ _ (write_header-IsOpen r.code _ added)

copy_exchange-IsOpen :
    (x : Exchange) (w : Writer)
    → x.early ≡ []
    → IsOpen w
    → IsOpen (copy_exchange modify_response x w)
unfolding copy_exchange send_early
copy_exchange-IsOpen x w e o = rw (e, copy_exchange, send_early) (copy_reply-IsOpen x.reply w o)

pub set_cors-IsOpen : (w : Writer) → w.sent ≡ none → IsOpen (set_cors w)
unfolding set_cors set_header
set_cors-IsOpen w fresh = record { holds = simp header_laws; sends = λ c k h. cc }

module _ {V P N F : Type 0} (h : Handler V P N F) where
  -- No upstream sends an informational (1xx) response.
  abbrev pub NoneEarly : Type 0
  NoneEarly = (to : Bytes) (r : Request) (fs : List Forward) → (h.exchange to r fs).early ≡ []

  cors-Closed : NoneEarly → Closed h (λ w s. IsOpen w) (λ a. IsOpen a.0)
  unfolding forward
  cors-Closed none_early = record {
    moves = λ w s s' e o. o;
    fails = λ b c w s known o. error_with-IsOpen b c w o;
    sends = λ rt r w s o. copy_exchange-IsOpen _ w (none_early rt.upstream r s.forwards) o;
    challenges =
        λ c w s o. write_header-IsOpen 402 _ (set_header-IsOpen "Www-Authenticate" c w refl o);
    enrols = λ b cred w s o. write-IsOpen b _ (
        write_header-IsOpen 200 _
          (set_header-IsOpen "Content-Type" _ _ refl (set_header-IsOpen _ cred w refl o)));
    settles = λ b w s o. write-IsOpen b _ (set_header-IsOpen "Content-Type" _ w refl o);
    preflights = λ w s o. write_header-IsOpen 204 w o;
  }

  -- Every response, an upstream's and an error too, has the header Access-Control-Allow-Origin
  -- exactly once, with the value `*`, if the backend's challenges are a status 402 with one header
  -- and no upstream sends an informational (1xx) response ahead of its own.
  pub serve_http-cors :
      NoneEarly
      → AsksPayment h.verifier
      → ((m : Metering V P) → h.metering ≡ some m → AsksStake m.cred_issuer)
      → (now : ℕ) (r : Request) (s : State V P N)
      → values origin (response (serve_http h now r fresh_writer s).0).1 ≡ star
  serve_http-cors none_early asks stakes now r s = response-IsOpen _ (
      serve_http-Ends h (λ w s. IsOpen w) (λ a. IsOpen a.0) (cors-Closed none_early) asks stakes now
        r fresh_writer s (set_cors-IsOpen fresh_writer refl))
