-- ===== src/Examples/Enrolling.antt =====
-- An enrolment on the concrete node.
use blockade.Prelude.{ok, Bytes, bytes, ℕ, ◌≡◌, refl, ◌≢◌, false, none, [], ◌∷◌, ◌++◌, arith}
use blockade.Std.Base64
use blockade.Std.Hex
use blockade.Std.Http.{Writer, fresh_writer, set_header, write_header}
use blockade.Store.Mem.{MemStore}
use blockade.Store.Principal.{MemPrincipalStore}
use blockade.Price.{with_price}
use blockade.Lightning.Verifier.{World}
use blockade.Lightning.Enrollment as Stake
use blockade.Lightning.Credential.{mint_credential}
use blockade.Lightning.StakeRace.{advance, both_enroll, checking, answered, race_enrolls_twice}
use blockade.Prelude.Schedules.{race}
use blockade.Store.Mem.Laws.{spent, mem_store-StoreLaws, mem_store-IsReliable}
use blockade.Proxy.Handler.{Handler, Metering}
use blockade.Proxy.Enrollment.{metering}
use blockade.Examples.Computing.{computing}
use blockade.Examples.Macaroons.{plain_lib-MacaroonLaws}
use blockade.Examples.Fixtures.{
  lightning, handler, curve, start, token, hash, repeat, raw_macaroon, get_with,
}

abbrev metered : Metering (World ℕ MemStore) MemPrincipalStore
metered = metering lightning plain_lib-MacaroonLaws (handler none) curve

abbrev proxy : Handler (World ℕ MemStore) MemPrincipalStore ℕ ℕ
proxy = handler none

abbrev stake_challenge : Writer
stake_challenge = write_header 402 (
    set_header "Www-Authenticate"
      (Stake.enrollment_challenge (Base64.encode raw_macaroon) (bytes "lnbc1")) fresh_writer)

issued :
    (metered.cred_issuer.issue_enrollment_challenge 0
      (with_price metered.curve.enrollment_stake_sats (get_with []))
      fresh_writer
      start.backend).0
    ≡ ok (Hex.encode hash, stake_challenge)
unfolding computing
issued = refl

token_names : metered.cred_issuer.payment_hash_from_token token ≡ ok (Hex.encode hash)
unfolding computing
token_names = refl

abbrev principal : Bytes
principal = bytes "07070707070707070707070707070707"

abbrev credential : Bytes
credential = Base64.encode (Hex.encode lightning.credential_key ++ (b':' ∷ Hex.encode principal))

completed :
    (Stake.complete_enrollment lightning 0 token start.backend).0 ≡ ok (principal, credential)
unfolding computing
completed = refl

abbrev second_principal : Bytes
second_principal = bytes "08080808080808080808080808080808"

abbrev second_credential : Bytes
second_credential =
    Base64.encode (Hex.encode lightning.credential_key ++ (b':' ∷ Hex.encode second_principal))

unspent : spent start.backend.store (Hex.encode hash) ≡ false
unfolding computing
unspent = refl

first_minted : mint_credential lightning (Hex.encode (repeat 16 7)) ≡ ok credential
unfolding computing
first_minted = refl

second_minted : mint_credential lightning (Hex.encode (repeat 16 8)) ≡ ok second_credential
unfolding computing
second_minted = refl

draws_differ : repeat 16 7 ≢ repeat 16 8
draws_differ e = cc

race_enrolls_twice_example :
    ((race
        (advance lightning (Hex.encode hash))
        (both_enroll 0)
        (checking ∷ checking ∷ [])
        start.backend).0
      ≡ answered (ok (Hex.encode (repeat 16 7), credential))
        ∷ answered (ok (Hex.encode (repeat 16 8), second_credential))
        ∷ [])
    × (Hex.encode (repeat 16 7) ≢ Hex.encode (repeat 16 8))
race_enrolls_twice_example =
    race_enrolls_twice lightning (Hex.encode hash) spent mem_store-StoreLaws mem_store-IsReliable 0
      start.backend (repeat 16 7) (repeat 16 8) credential second_credential 8 9 unspent refl refl
      first_minted second_minted (ground arith) (ground arith) draws_differ
