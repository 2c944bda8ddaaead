-- ===== src/Widget.antt =====
-- examples/browser-paywall/l402-paywall.js: how the browser client reads a challenge and pays with a
-- token.
pub mod Laws
pub mod Amounts
pub mod Purchase
use blockade.Prelude.{
  if◌then◌else◌, length, Bytes, bytes, ◌≡◌, refl, Option, none, some, [], ◌∷◌, ◌++◌,
}
use blockade.Std.Strings.{has_prefix, drop, split_at}

-- What parseChallenge returns; `kind` is its field `type`.
pub record Challenge : Type 0 where
  pub macaroon : Bytes
  pub invoice : Bytes
  pub kind : Bytes

-- `([^"]+)"` at the head of a text: the group.
unfoldable pub quoted : Bytes → Option Bytes
unfolding split_at
quoted s = elim (split_at b'"' s) [
  | none ↦ none
  | some ([], rest) ↦ none
  | some (c ∷ v, rest) ↦ some (c ∷ v)
]

-- The same behind `mark`, at the first place where it matches.
unfoldable pub match_behind : Bytes → Bytes → Option Bytes
unfolding has_prefix drop quoted
match_behind mark [] = none
match_behind mark (c ∷ s) =
    let later = match_behind mark s in
    if has_prefix (c ∷ s) mark
    then elim (quoted (drop (length mark) (c ∷ s))) [ some v ↦ some v | none ↦ later ]
    else later

unfoldable pub challenge_type : Bytes → Bytes
unfolding match_behind
challenge_type www_auth = elim (match_behind (bytes "type=\"") www_auth) [
  | some t ↦ t
  | none ↦ bytes "toll"
]

unfoldable pub parse_challenge : Bytes → Option Challenge
unfolding match_behind challenge_type
parse_challenge www_auth = elim (match_behind (bytes "macaroon=\"") www_auth) [
  | none ↦ none
  | some macaroon ↦ elim (match_behind (bytes "invoice=\"") www_auth) [
    | none ↦ none
    | some invoice ↦
        some (record { macaroon = macaroon; invoice = invoice; kind = challenge_type www_auth })
  ]
]

unfoldable pub build_auth_header : Bytes → Bytes → Bytes
build_auth_header macaroon preimage = bytes "L402 " ++ (macaroon ++ (b':' ∷ preimage))

parse_example :
    parse_challenge (bytes "L402 macaroon=\"bWFj\", invoice=\"lnbc1\", type=\"enrollment\"")
    ≡ some (record { macaroon = bytes "bWFj"; invoice = bytes "lnbc1"; kind = bytes "enrollment" })
unfolding parse_challenge
parse_example = refl
