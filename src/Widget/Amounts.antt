-- ===== src/Widget/Amounts.antt =====
-- The challenge of the on-chain backend, read as parseChallenge of
-- examples/browser-paywall/l402-paywall.js reads the fields of the Lightning backend's.
use blockade.Prelude.{All, Bytes, bytes, ℕ, ◌≡◌, refl, ◌≢◌, false, some, [], ◌∷◌, ◌++◌, arith}
use blockade.Prelude.Int.{pos}
use blockade.Std.Strings.{decimal, decimal_ℤ}
use blockade.Std.Strings.Laws.{
  number_from, IsDigit, decimal-number, decimal-IsDigit, decimal_filled,
}
use blockade.Std.Base64.Laws.{NoQuote}
use blockade.Onchain.Verifier.{onchain_challenge, pending_ttl_seconds}
use blockade.Widget.{match_behind}
use blockade.Widget.Laws.{ends_with, quoted-append, match_behind-skip}

digits-NoQuote : (s : Bytes) → All IsDigit s → NoQuote s
digits-NoQuote [] h = tt
digits-NoQuote (c ∷ s) h = (omega (arith, h.0.0), digits-NoQuote s h.1)

-- An address and an amount in quotation marks, and what follows.
module _ (addr amount rest : Bytes) (plain : NoQuote addr) (filled : addr ≢ []) where
  abbrev fields : Bytes
  fields =
      bytes "BTC-Onchain address=\""
      ++ (addr ++ (bytes "\", amount_sats=\"" ++ (amount ++ (b'"' ∷ rest))))

  finds-address : match_behind (bytes "address=\"") fields ≡ some addr
  unfolding match_behind
  finds-address =
      rw (quoted-append addr (bytes ", amount_sats=\"" ++ (amount ++ (b'"' ∷ rest))) plain filled)
        refl

  finds-amount :
      ends_with (bytes "amount_sats=") addr ≡ false
      → NoQuote amount
      → amount ≢ []
      → match_behind (bytes "amount_sats=\"") fields ≡ some amount
  unfolding match_behind
  finds-amount apart plain_amount some_amount =
      rw
        (
          match_behind-skip addr (bytes "amount_sats=")
              (bytes ", amount_sats=\"" ++ (amount ++ (b'"' ∷ rest))) plain (omega arith) apart,
          quoted-append amount rest plain_amount some_amount,
        )
        refl

module _ (addr : Bytes) (n : ℕ) (plain : NoQuote addr) (filled : addr ≢ []) where
  abbrev expiry : Bytes
  expiry = bytes ", expires_in=\"" ++ (decimal pending_ttl_seconds ++ bytes "\"")

  challenge-fields : onchain_challenge addr (pos n) ≡ fields addr (decimal n) expiry plain filled
  unfolding onchain_challenge decimal_ℤ
  challenge-fields = refl

  -- A client reads the address and the price from an on-chain challenge, the price as decimal digits,
  -- if the address has no quotation mark, is not empty and does not end in `amount_sats=`.
  pub onchain_challenge_readable :
      ends_with (bytes "amount_sats=") addr ≡ false
      → (match_behind (bytes "address=\"") (onchain_challenge addr (pos n)) ≡ some addr)
        × ((amount : Bytes) × (match_behind
                (bytes "amount_sats=\"")
                (onchain_challenge addr (pos n))
              ≡ some amount)
            × All IsDigit amount
            × (number_from 0 amount ≡ n))
  onchain_challenge_readable apart = rw challenge-fields (
    finds-address addr (decimal n) expiry plain filled,
    (
      decimal n,
      finds-amount addr (decimal n) expiry plain filled apart
          (digits-NoQuote (decimal n) (decimal-IsDigit n)) (decimal_filled n),
      decimal-IsDigit n,
      decimal-number n,
    ),
  )
