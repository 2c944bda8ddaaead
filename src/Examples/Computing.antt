-- ===== src/Examples/Computing.antt =====
-- The definitions that a run of the proxy computes with, under one name for `unfolding` lines.
use blockade.Prelude.{◌==◌, lookup, insert, delete, retain}
use blockade.Std.Strings.{split_at, has_prefix, trim_prefix, trim_space, decimal, decimal_ℤ, drop}
use blockade.Std.Base64
use blockade.Std.Hex
use blockade.Std.Sha256.{sum256}
use blockade.Std.Net.{split_host}
use blockade.Std.Http
use blockade.Price.{positive_price, with_price, price_from_context, curve_price}
use blockade.Prelude.Int.{wrap64, ◌+ℤ◌, ◌-ℤ◌, ◌*ℤ◌}
use blockade.Store.Mem
use blockade.Store.Principal
use blockade.Lightning.Client
use blockade.Lightning.Token
use blockade.Lightning.Verifier
use blockade.Lightning.Credential
use blockade.Lightning.Enrollment
use blockade.Onchain.Client as Btc
use blockade.Onchain.Verifier as Onchain
use blockade.Config.{validate}
use blockade.Proxy.Handler
use blockade.Proxy.Flat
use blockade.Proxy.Metered
use blockade.Proxy.Serve
use blockade.Proxy.Lifecycle
use blockade.Examples.Macaroons

unfoldable pub computing : Unit {0}
unfolding ◌==◌ lookup insert delete retain split_at has_prefix trim_prefix trim_space decimal
    decimal_ℤ drop Base64.encode Base64.decode Hex.encode Hex.decode sum256 split_host Http.get
    Http.values Http.del Http.set Http.set_header Http.write_header Http.write Http.error
    Http.error_with Http.not_found Http.response Http.copy_reply Http.send_early Http.copy_exchange
    positive_price with_price price_from_context curve_price wrap64 ◌+ℤ◌ ◌-ℤ◌ ◌*ℤ◌ Mem.is_used
    Mem.mark_used Mem.add_pending Mem.get_pending Mem.delete_pending Principal.create_principal
    Principal.get_principal Principal.increment_request_count Client.add_invoice Client.is_settled
    Client.lookup_settlement Token.decode_token Token.payment_hash_from_id Token.verify_preimage
    Verifier.extract_token Verifier.l402_challenge Verifier.mint_macaroon Verifier.issue_challenge
    Verifier.mark Verifier.spend Verifier.claim Verifier.verify_proof Verifier.lookup_settlement
    Credential.mint_credential Credential.validate_credential Credential.payment_hash_from_token
    Enrollment.enrollment_challenge Enrollment.new_principal_id
    Enrollment.issue_enrollment_challenge Enrollment.mint_principal Enrollment.spend_stake
    Enrollment.claim_stake Enrollment.complete_enrollment Handler.modify_response
    Handler.match_route Handler.client_ip Handler.anon_count Handler.increment_anon_count
    Handler.forward Handler.with_proof Handler.challenge Handler.get_limiter Handler.rate_limited
    Flat.serve_flat Metered.next_price Metered.count_and_forward Metered.serve_principal
    Metered.serve_credentialed Metered.enrolled Metered.complete_enrollment Metered.pending_hash
    Metered.count_anonymous Metered.serve_token Metered.enrollment_challenge
    Metered.anonymous_challenge Metered.serve_anonymous Metered.serve_metered
    Serve.answer_settlement Serve.handle_settlement Serve.serve_route Serve.dispatch
    Serve.serve_http Lifecycle.step Lifecycle.run Macaroons.marshal Macaroons.unmarshal
    Macaroons.verify Btc.new_client Btc.call Btc.get_new_address Btc.get_received_sats
    Onchain.onchain_challenge Onchain.extract_token Onchain.issue_challenge Onchain.settle
    Onchain.expire Onchain.check_received Onchain.check_entry Onchain.verify_pending
    Onchain.verify_address Onchain.verify_proof validate
computing = tt
