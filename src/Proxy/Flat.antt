-- ===== src/Proxy/Flat.antt =====
-- serveFlat of internal/proxy/proxy.go: flat toll, single-use tokens.
use blockade.Prelude.{Bytes, ℕ, none, some}
use blockade.Std.Http.{Request, Writer, get, del}
use blockade.Proxy.Handler.{
  Handler, State, Route, authorization_header, forward, with_proof, challenge, rate_limited,
}

module _ {V P N F : Type 0} (h : Handler V P N F) where
  -- With a token.
  unfoldable pub flat_token :
      ℕ → Bytes → Request → Writer → Route → State V P N → Writer × State V P N
  flat_token now token r w rt =
      with_proof h now token w
        (forward h rt (record r { header = del authorization_header r.header }) w)

  -- Without one.
  unfoldable pub flat_challenge : ℕ → Request → Writer → Route → State V P N → Writer × State V P N
  flat_challenge now r w rt = rate_limited h now r w (challenge h now rt.price_sats r w)

  unfoldable pub serve_flat : ℕ → Request → Writer → Route → State V P N → Writer × State V P N
  unfolding flat_token flat_challenge
  serve_flat now r w rt s = elim (h.verifier.extract_token (get authorization_header r.header)) [
    | some token ↦ flat_token now token r w rt s
    | none ↦ flat_challenge now r w rt s
  ]
