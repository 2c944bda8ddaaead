-- ===== src/Onchain/Purchase.antt =====
-- A purchase at the flat toll of internal/proxy/proxy.go with the on-chain backend.
use blockade.Prelude.{ok, Bytes, ℕ, ◌+◌, ◌≡◌}
use blockade.Prelude.Int.{ℤ}
use blockade.Std.Http.{Request}
use blockade.Price.{positive_price}
use blockade.Onchain.Client.{get_new_address}
use blockade.Onchain.Verifier.{Verifier, World, pending_ttl, onchain_verifier}
use blockade.Proxy.Handler.{Handler}
use blockade.Proxy.Visits.{flat_handler, Visits}

module _ {J G E S P N F : Type 0} (v : Verifier J G E S) (base : Handler (World E S) P N F) where
  -- The handler with the on-chain backend.
  abbrev pub onchain_handler : Handler (World E S) P N F
  onchain_handler = flat_handler (onchain_verifier v) base

  -- bitcoind makes the address `addr`, and it is stored with the price for an hour.
  pub record Offers (now : ℕ) (r : Request) (w : World E S) (addr : Bytes) (price : ℤ)
      : Type 0 where
    pub prices : positive_price r ≡ ok price
    pub makes : (get_new_address v.btc w.env).0 ≡ ok addr
    pub stores : (v.ps.add_pending addr price (now + pending_ttl) w.store).0 ≡ ok tt
