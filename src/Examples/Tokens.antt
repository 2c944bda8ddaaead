-- ===== src/Examples/Tokens.antt =====
-- The Lightning backend on a concrete node: challenges, payments, enrolments and credentials.
use blockade.Prelude.{
  ok, Bytes, IsBytes, bytes, ◌≡◌, refl, ◌≢◌, true, false, some, [], ◌∷◌, ◌++◌, arith,
}
use blockade.Prelude.Int.{pos}
use blockade.Std.Hex
use blockade.Std.Base64
use blockade.Std.Sha256.{sum256}
use blockade.Std.Http.{Request, Writer, set_header, write_header, fresh_writer}
use blockade.Payment.{SingleUse, SingleUseIssuer}
use blockade.Store.Mem.Laws.{spent, mem_store-StoreLaws, mem_store-IsReliable}
use blockade.Lightning.Services.{Invoice, settled}
use blockade.Lightning.Token.{Token}
use blockade.Lightning.Verifier.{verify_proof, issue_challenge, l402_challenge}
use blockade.Lightning.Credential.{mint_credential, validate_credential}
use blockade.Lightning.Interface.{lightning_verifier, lightning_issuer, token_key, spent_in}
use blockade.Lightning.Enrollment.{complete_enrollment}
use blockade.Lightning.Verifier.{lookup_settlement}
use blockade.Prelude.Schedules.{race, both_first}
use blockade.Lightning.Race.{advance, checking, answered, race_accepts_twice}
use blockade.Lightning.Accepts.{IsPaid, verify_proof-IsPaid}
use blockade.Lightning.AntiReplay.{lightning-SingleUse}
use blockade.Lightning.StakeReplay.{lightning-SingleUseIssuer}
use blockade.Lightning.Challenge.{Challenges}
use blockade.Lightning.Credentials.{validate-mint, payment_macaroon_is_no_credential}
use blockade.Examples.Computing.{computing}
use blockade.Examples.Macaroons.{Plain, plain_lib, plain_lib-MacaroonLaws}
use blockade.Examples.Fixtures.{
  lightning, fresh_world, preimage, hash, paid_macaroon, raw_macaroon, token, get_with,
}

lightning-SingleUse_example :
    SingleUse (token_key lightning) (spent_in spent) (lightning_verifier lightning)
lightning-SingleUse_example = lightning-SingleUse lightning spent mem_store-StoreLaws

lightning-SingleUseIssuer_example :
    SingleUseIssuer (token_key lightning) (spent_in spent) (lightning_issuer lightning)
lightning-SingleUseIssuer_example = lightning-SingleUseIssuer lightning spent mem_store-StoreLaws

accepted : (verify_proof lightning 0 token fresh_world).0 ≡ ok true
unfolding computing
accepted = refl

verify_proof-IsPaid_example :
    (ph : Bytes) × (tok : Token Plain) × (inv : Invoice) × IsPaid lightning spent
      mem_store-StoreLaws token ph fresh_world tok inv
verify_proof-IsPaid_example =
    verify_proof-IsPaid lightning spent mem_store-StoreLaws 0 token fresh_world accepted

abbrev settled_invoice : Invoice
settled_invoice = record { state = settled; r_preimage = [] }

abbrev paid_token : Token Plain
paid_token = record { macaroon = paid_macaroon; preimage = preimage }

token-IsPaid :
    IsPaid lightning spent mem_store-StoreLaws token hash fresh_world paid_token settled_invoice
unfolding computing
token-IsPaid = record {
  decodes = refl;
  names = refl;
  opens = refl;
  reads = refl;
  settles = refl;
  fresh = refl;
}

-- GET /get at a price of 10 sats.
abbrev priced : Request
priced = record (get_with []) { price = some (pos 10) }

abbrev challenge_writer : Writer
challenge_writer = write_header 402 (
    set_header "Www-Authenticate" (l402_challenge (Base64.encode raw_macaroon) (bytes "lnbc1"))
      fresh_writer)

challenged : (issue_challenge lightning priced fresh_writer fresh_world).0 ≡ ok challenge_writer
unfolding computing
challenged = refl

first_challenge :
    Challenges lightning priced fresh_world
      (bytes "lnbc1")
      (sum256 preimage)
      paid_macaroon
      raw_macaroon
unfolding computing
first_challenge = record {
  price = pos 10;
  prices = refl;
  invoices = refl;
  mints = refl;
  marshals = refl;
}

preimage-IsBytes : IsBytes preimage
preimage-IsBytes = ground arith

unspent : spent fresh_world.store (Hex.encode (sum256 preimage)) ≡ false
unfolding computing
unspent = refl

abbrev principal : Bytes
principal = bytes "0707"

abbrev credential : Bytes
credential = Base64.encode (Hex.encode lightning.credential_key ++ (b':' ∷ Hex.encode principal))

minted : mint_credential lightning principal ≡ ok credential
unfolding computing
minted = refl

validate-mint_example : validate_credential lightning credential ≡ ok principal
validate-mint_example = validate-mint lightning plain_lib-MacaroonLaws principal credential minted

keys_differ : lightning.credential_key ≢ lightning.root_key
keys_differ e = cc

marshalled : plain_lib.marshal_binary paid_macaroon ≡ ok raw_macaroon
unfolding computing
marshalled = refl

payment_macaroon_is_no_credential_example :
    validate_credential lightning (Base64.encode raw_macaroon) ≢ ok principal
payment_macaroon_is_no_credential_example =
    payment_macaroon_is_no_credential lightning plain_lib-MacaroonLaws keys_differ (Hex.encode hash)
      (bytes "btc-paywall") raw_macaroon principal paid_macaroon refl marshalled

raw_macaroon-IsBytes : IsBytes raw_macaroon
unfolding computing
raw_macaroon-IsBytes = ground arith

unmarshalled : plain_lib.unmarshal_binary raw_macaroon ≡ ok paid_macaroon
unfolding computing
unmarshalled = refl

revealed : (lookup_settlement lightning (Hex.encode hash) fresh_world).0 ≡ ok (some [])
unfolding computing
revealed = refl

-- The principal's identifier is what the node's generator gives next.
abbrev first_principal : Bytes
first_principal = bytes "07070707070707070707070707070707"

abbrev first_credential : Bytes
first_credential =
    Base64.encode (Hex.encode lightning.credential_key ++ (b':' ∷ Hex.encode first_principal))

completed :
    (complete_enrollment lightning 0 token fresh_world).0 ≡ ok (first_principal, first_credential)
unfolding computing
completed = refl

race_accepts_twice_example :
    (race
      (advance lightning (Hex.encode (sum256 preimage)))
      (both_first 0)
      (checking ∷ checking ∷ [])
      fresh_world).0
    ≡ answered (ok true) ∷ answered (ok true) ∷ []
race_accepts_twice_example =
    race_accepts_twice lightning (Hex.encode (sum256 preimage)) spent mem_store-StoreLaws
      mem_store-IsReliable 0 fresh_world unspent
