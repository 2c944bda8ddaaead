-- ===== src/Examples/Settling.antt =====
-- The settlement endpoint of the concrete proxy.
use blockade.Prelude.{◌==◌, Bytes, bytes, ℕ, ◌≡◌, refl, ◌↔◌, false, none, [], ◌∷◌}
use blockade.Std.Hex
use blockade.Std.Http.{Request, get, fresh_writer}
use blockade.Store.Mem.{MemStore}
use blockade.Store.Principal.{MemPrincipalStore, mem_principals}
use blockade.Lightning.Services.{Invoice}
use blockade.Lightning.Settlement.{Reveals}
use blockade.Lightning.Verifier.{World}
use blockade.Proxy.Handler.{Handler}
use blockade.Proxy.Serve.{serve_http}
use blockade.Proxy.Settlement.{settled_body, metered_handler, Inquires, settlement_iff}
use blockade.Examples.Computing.{computing}
use blockade.Examples.Fixtures.{lightning, handler, curve, start, hash, get_with}

abbrev inquiry : Request
inquiry = record (get_with []) {
  path = bytes "/l402/settlement";
  query = ("payment_hash", Hex.encode hash) ∷ [];
}

abbrev proxy : Handler (World ℕ MemStore) MemPrincipalStore ℕ ℕ
proxy = metered_handler lightning (handler none) curve mem_principals

inquires : Inquires lightning (handler none) curve mem_principals inquiry
unfolding computing
inquires = record { real = refl; goes = refl }

-- The node keeps no preimages.
gives_out : (serve_http proxy 0 inquiry fresh_writer start).0.body ≡ settled_body [] ∷ []
unfolding computing
gives_out = refl

settlement_iff_example :
    let (w', s') = serve_http proxy 0 inquiry fresh_writer start in
    ((w'.body ≡ settled_body [] ∷ []) ↔ (
      ((get "payment_hash" inquiry.query == []) ≡ false)
      × ((ph : Bytes) × (inv : Invoice) × Reveals lightning
            (get "payment_hash" inquiry.query)
            []
            start.backend
            ph
            inv)))
    × (s'.forwards ≡ start.forwards)
    × (s'.backend.store ≡ start.backend.store)
settlement_iff_example =
    settlement_iff lightning (handler none) curve mem_principals 0 inquiry [] start inquires
