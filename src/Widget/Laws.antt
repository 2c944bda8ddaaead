-- ===== src/Widget/Laws.antt =====
-- parseChallenge of examples/browser-paywall/l402-paywall.js on the challenges of the Lightning
-- backend.
use blockade.Prelude.{
  ◌==◌, Bytes, IsBytes, bytes, ◌≡◌, refl, ◌≢◌, Bool, false, ◌||◌, some, [], ◌∷◌, ◌++◌, arith,
}
use blockade.Std.Strings.{has_prefix}
use blockade.Std.Strings.Laws.{split_at-first}
use blockade.Std.Base64
use blockade.Std.Base64.Laws.{NoQuote, encode-NoQuote}
use blockade.Lightning.Verifier.{l402_challenge}
use blockade.Widget.{quoted, match_behind, challenge_type, parse_challenge}

abbrev pub ends_with : Bytes → Bytes → Bool
ends_with m [] = false
ends_with m (c ∷ s) = (c ∷ s == m) || ends_with m s

-- The macaroon and the invoice of a challenge can be told apart in it.
pub record IsReadable (raw pay_req : Bytes) : Type 0 where
  pub plain : NoQuote pay_req
  pub has_invoice : pay_req ≢ []
  pub has_macaroon : raw ≢ []
  pub apart : ends_with (bytes "invoice=") (Base64.encode raw) ≡ false

encode_filled : (raw : Bytes) → raw ≢ [] → Base64.encode raw ≢ []
unfolding Base64.encode
encode_filled [] h = absurd (h refl)
encode_filled (a ∷ []) h = λ e. cc
encode_filled (a ∷ b ∷ []) h = λ e. cc
encode_filled (a ∷ b ∷ c ∷ raw) h = λ e. cc

-- A text without quotation marks that is not empty, in quotation marks.
pub quoted-append : (v rest : Bytes) → NoQuote v → v ≢ [] → quoted (v ++ (b'"' ∷ rest)) ≡ some v
unfolding quoted
quoted-append [] rest plain filled = absurd (filled refl)
quoted-append (c ∷ v) rest plain filled = rw (split_at-first b'"' (c ∷ v) rest plain, quoted) refl

has_prefix-quoted :
    (s m rest : Bytes)
    → NoQuote s
    → NoQuote m
    → has_prefix (s ++ (b'"' ∷ rest)) (m ++ (b'"' ∷ [])) ≡ (s == m)
unfolding has_prefix ◌==◌
has_prefix-quoted [] [] rest ps pm = refl
has_prefix-quoted [] (x ∷ m) rest ps pm = ground arith
has_prefix-quoted (c ∷ s) [] rest ps pm = ground arith
has_prefix-quoted (c ∷ s) (x ∷ m) rest ps pm = ground (arith, has_prefix-quoted s m rest ps.1 pm.1)

-- A mark that ends in a quotation mark is not found in a text without them, unless the text ends in
-- the rest of it.
pub match_behind-skip :
    (s m rest : Bytes)
    → NoQuote s
    → NoQuote m
    → ends_with m s ≡ false
    → match_behind (m ++ (b'"' ∷ [])) (s ++ (b'"' ∷ rest))
      ≡ match_behind (m ++ (b'"' ∷ [])) (b'"' ∷ rest)
unfolding match_behind
match_behind-skip [] m rest ps pm e = refl
match_behind-skip (c ∷ s) m rest ps pm e =
    ground (arith, has_prefix-quoted (c ∷ s) m rest ps pm, match_behind-skip s m rest ps.1 pm)

-- A macaroon and an invoice without quotation marks, neither empty, of which the first does not end
-- in `invoice=`.
module _ (mac64 pay_req : Bytes) (pm : NoQuote mac64) (pp : NoQuote pay_req) (fm : mac64 ≢ [])
    (fp : pay_req ≢ []) where
  finds-macaroon : match_behind (bytes "macaroon=\"") (l402_challenge mac64 pay_req) ≡ some mac64
  unfolding match_behind l402_challenge
  finds-macaroon =
      rw (quoted-append mac64 (bytes ", invoice=\"" ++ (pay_req ++ bytes "\"")) pm fm) refl

  finds-invoice :
      ends_with (bytes "invoice=") mac64 ≡ false
      → match_behind (bytes "invoice=\"") (l402_challenge mac64 pay_req) ≡ some pay_req
  unfolding match_behind l402_challenge
  finds-invoice e =
      rw
        (
          match_behind-skip mac64 (bytes "invoice=")
              (bytes ", invoice=\"" ++ (pay_req ++ bytes "\"")) pm (omega arith) e,
          quoted-append pay_req [] pp fp,
        )
        refl

  parse_challenge-l402 :
      ends_with (bytes "invoice=") mac64 ≡ false
      → parse_challenge (l402_challenge mac64 pay_req)
        ≡ some (record {
          macaroon = mac64;
          invoice = pay_req;
          kind = challenge_type (l402_challenge mac64 pay_req);
        })
  unfolding parse_challenge
  parse_challenge-l402 e = rw (finds-macaroon, finds-invoice e, parse_challenge) refl

-- The client reads the macaroon and the invoice of a readable challenge.
pub parse_challenge-IsReadable :
    (raw pay_req : Bytes)
    → IsBytes raw
    → IsReadable raw pay_req
    → parse_challenge (l402_challenge (Base64.encode raw) pay_req)
      ≡ some (record {
        macaroon = Base64.encode raw;
        invoice = pay_req;
        kind = challenge_type (l402_challenge (Base64.encode raw) pay_req);
      })
parse_challenge-IsReadable raw pay_req bs c =
    parse_challenge-l402 (Base64.encode raw) pay_req (encode-NoQuote raw bs) c.plain
      (encode_filled raw c.has_macaroon) c.has_invoice c.apart
