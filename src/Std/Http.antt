-- ===== src/Std/Http.antt =====
-- Of Go's net/http and net/http/httputil: headers, requests, the response writer, http.Error,
-- http.NotFound, and how the reverse proxy copies an upstream response. Header names are texts in
-- their canonical form. A body is kept as the value that is rendered.
pub mod Laws
use blockade.Prelude.{
  if◌then◌else◌, Error, Bytes, bytes, ℕ, String, ◌≡◌, Bool, Option, none, some, List, [], ◌∷◌, ◌++◌,
}
use text.Mathlib.Text.{◌==◌ as str_eq}
use blockade.Prelude.Int.{ℤ}

-- The entries in order; a name may have several.
abbrev pub Header : Type 0
Header = List (String × Bytes)

-- h.Get(name): the first value, or "".
unfoldable pub get : String → Header → Bytes
get n [] = []
get n ((m, v) ∷ h) = if str_eq m n then v else get n h

-- h.Values(name)
unfoldable pub values : String → Header → List Bytes
values n [] = []
values n ((m, v) ∷ h) = let rest = values n h in if str_eq m n then v ∷ rest else rest

-- h.Del(name)
unfoldable pub del : String → Header → Header
del n [] = []
del n ((m, v) ∷ h) = let rest = del n h in if str_eq m n then rest else (m, v) ∷ rest

-- h.Set(name, value)
unfoldable pub set : String → Bytes → Header → Header
unfolding del
set n v h = (n, v) ∷ del n h

-- The price is the context value of internal/payment/price.go.
pub record Request : Type 0 where
  pub method : Bytes
  pub path : Bytes
  pub remote_addr : Bytes
  pub header : Header
  pub query : Header
  pub price : Option ℤ

pub data Json : Type 0 where
  str : Bytes → Json
  flag : Bool → Json

pub data Body : Type 0 where
  line : String → Body
  error_line : String → Error → Body
  json : List (String × Json) → Body
  raw : Bytes → Body

-- `sent` is the status with the headers of the moment when it was written.
pub record Writer : Type 0 where
  pub header : Header
  pub sent : Option (ℕ × Header)
  pub body : List Body

-- w.Header().Set(name, value)
unfoldable pub set_header : String → Bytes → Writer → Writer
unfolding set
set_header n v w = record w { header = set n v w.header }

-- Only the first call counts.
unfoldable pub write_header : ℕ → Writer → Writer
write_header code w = record w {
  sent = elim w.sent [ none ↦ some (code, w.header) | some s ↦ some s ];
}

-- A write before any WriteHeader sends status 200.
unfoldable pub write : Body → Writer → Writer
unfolding write_header
write b w = let w' = write_header 200 w in record w' { body = w'.body ++ b ∷ [] }

unfoldable pub error_with : Body → ℕ → Writer → Writer
unfolding set_header del write_header write
error_with b code w = write b (
    write_header code (
      set_header "X-Content-Type-Options" (bytes "nosniff") (
        set_header "Content-Type" (bytes "text/plain; charset=utf-8")
          (record w { header = del "Content-Length" w.header }))))

-- http.Error(w, s, code)
unfoldable pub error : String → ℕ → Writer → Writer
unfolding error_with
error s = error_with (line s)

unfoldable pub not_found : Writer → Writer
unfolding error
not_found = error "404 page not found" 404

-- The response that the server sends when the handler returns.
unfoldable pub response : Writer → ℕ × Header
response w = elim w.sent [ none ↦ (200, w.header) | some s ↦ s ]

abbrev pub status : Writer → ℕ
status w = (response w).0

-- What came back from an upstream.
pub record Reply : Type 0 where
  pub code : ℕ
  pub header : Header
  pub content : Bytes

-- An exchange with an upstream: the headers of the informational (1xx) responses that come first, and
-- the response, or `none` where the exchange fails.
pub record Exchange : Type 0 where
  pub early : List Header
  pub reply : Option Reply

-- Got1xxResponse of ReverseProxy.ServeHTTP: an informational response is passed on at once, under the
-- writer's headers and its own, and then the writer's headers are cleared. It is not the status.
unfoldable pub send_early : List Header → Writer → Writer
send_early [] w = w
send_early (h ∷ hs) w = send_early hs (record w { header = [] })

-- The end of ReverseProxy.ServeHTTP: the default error handler answers a failed exchange by 502;
-- otherwise ModifyResponse runs, the headers are added to the writer's, and status and body are
-- written. A switch of protocols (101) is not modelled.
unfoldable pub copy_reply : (Header → Header) → Option Reply → Writer → Writer
unfolding write_header write
copy_reply modify none w = write_header 502 w
copy_reply modify (some r) w =
    write (raw r.content) (write_header r.code (record w { header = w.header ++ modify r.header }))

unfoldable pub copy_exchange : (Header → Header) → Exchange → Writer → Writer
unfolding send_early copy_reply
copy_exchange modify x w = copy_reply modify x.reply (send_early x.early w)

-- http.StatusOK and so on are their numbers.
abbrev pub fresh_writer : Writer
fresh_writer = record { header = []; sent = none; body = [] }

-- net/http's newResponse: nothing is sent yet.
abbrev pub IsUnsent : Writer → Type 0
IsUnsent w = w.sent ≡ none
