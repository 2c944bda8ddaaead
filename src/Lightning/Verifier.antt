-- ===== src/Lightning/Verifier.antt =====
-- internal/payment/lightning/verifier.go: challenges and their proofs. The rest of the file is in
-- Lightning/Credential.
use blockade.Prelude.{
  if◌then◌else◌, Result, context, Go, Bytes, bytes, ℕ, Bool, true, false, Option, none, some, ◌++◌,
}
use mathlib.Core.Option
use blockade.Prelude.State.{pure, lift, within, ◌>>=◌}
use blockade.Std.Strings.{has_prefix, trim_prefix}
use blockade.Std.Base64
use blockade.Std.Hex
use blockade.Std.Http.{Request, Writer, set_header, write_header}
use blockade.Price.{positive_price}
use blockade.Store.Types.{Store}
use blockade.Lightning.Services.{MacaroonLib, Services}
use blockade.Lightning.Client
use blockade.Lightning.Token.{decode_token, payment_hash_from_id, verify_preimage}

-- The struct's `lnd` client is `services`; `lib` is the macaroon package.
pub record Verifier (M E S : Type 0) : Type 0 where
  pub lib : MacaroonLib M
  pub services : Services E
  pub st : Store S
  pub root_key : Bytes
  pub credential_key : Bytes

-- What the verifier's methods change: the services' state and the store's.
pub record World (E S : Type 0) : Type 0 where
  pub env : E
  pub store : S

abbrev pub auth_scheme : Bytes
auth_scheme = bytes "L402 "

-- fmt.Sprintf(`L402 macaroon="%s", invoice="%s"`, mac64, payReq)
unfoldable pub l402_challenge : Bytes → Bytes → Bytes
l402_challenge mac64 pay_req =
    bytes "L402 macaroon=\"" ++ (mac64 ++ (bytes "\", invoice=\"" ++ (pay_req ++ bytes "\"")))

unfoldable pub extract_token : Bytes → Option Bytes
extract_token auth_header =
    if has_prefix auth_header auth_scheme then some (trim_prefix auth_header auth_scheme) else none

module _ {E S A : Type 0} where
  abbrev pub on_env : Go E A → Go (World E S) A
  on_env m w = let (r, e) = m w.env in (r, record w { env = e })

  abbrev pub on_store : Go S A → Go (World E S) A
  on_store m w = let (r, s) = m w.store in (r, record w { store = s })

module _ {M E S : Type 0} where
  unfoldable pub new_verifier : MacaroonLib M → Services E → Store S → Go E (Verifier M E S)
  new_verifier lib sv st = do
    root_key ← within "generate root key" (sv.rand_read 32)
    credential_key ← within "generate credential key" (sv.rand_read 32)
    pure (record {
      lib = lib;
      services = sv;
      st = st;
      root_key = root_key;
      credential_key = credential_key;
    })

module _ {M E S : Type 0} (v : Verifier M E S) where
  unfoldable pub mint_macaroon : Bytes → Result M
  mint_macaroon payment_hash = v.lib.mint v.root_key (Hex.encode payment_hash) (bytes "btc-paywall")

  unfoldable pub issue_challenge : Request → Writer → Go (World E S) Writer
  unfolding mint_macaroon
  issue_challenge r w = do
    price_sats ← lift (positive_price r)
    (pay_req, payment_hash) ←
        within "create invoice"
          (on_env (Client.add_invoice v.services price_sats (bytes "btc-paywall: " ++ r.path)))
    m ← lift (context "mint macaroon" (mint_macaroon payment_hash))
    raw ← lift (context "marshal macaroon" (v.lib.marshal_binary m))
    pure (
        write_header 402
          (set_header "Www-Authenticate" (l402_challenge (Base64.encode raw) pay_req) w))

  -- The end of VerifyProof, from `v.st.MarkUsed` on, and from `v.st.IsUsed` on.
  unfoldable pub mark : ℕ → Bytes → Go (World E S) Bool
  mark now hash_hex = do
    _ ← within "mark token used" (on_store (v.st.mark_used now hash_hex))
    pure true

  unfoldable pub spend : ℕ → Bytes → Go (World E S) Bool
  spend now hash_hex = do
    used ← within "check used token" (on_store (v.st.is_used hash_hex))
    if used then pure false else mark now hash_hex

  -- From `v.lnd.IsSettled` on.
  unfoldable pub claim : ℕ → Bytes → Go (World E S) Bool
  claim now payment_hash = do
    settled ← within "check invoice" (on_env (Client.is_settled v.services payment_hash))
    if settled then spend now (Hex.encode payment_hash) else pure false

  unfoldable pub verify_proof : ℕ → Bytes → Go (World E S) Bool
  verify_proof now token_str = do
    tok ← lift (context "decode token" (decode_token v.lib token_str))
    payment_hash ← lift (context "extract payment hash" (payment_hash_from_id v.lib tok.macaroon))
    if verify_preimage tok.preimage payment_hash then claim now payment_hash else pure false

  unfoldable pub lookup_settlement : Bytes → Go (World E S) (Option Bytes)
  lookup_settlement payment_hash_hex = do
    ph ← lift (context "decode payment hash" (Hex.decode payment_hash_hex))
    preimage ← on_env (Client.lookup_settlement v.services ph)
    pure (Option.map Hex.encode preimage)
