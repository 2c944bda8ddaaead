-- ===== src/Price.antt =====
-- internal/payment/pricing.go and price.go: the cost curve, and the price in the request's context.
pub mod Curve
use blockade.Prelude.{if◌then◌else◌, new, Result, ok, err, context, not, ◌||◌, Option, none, some}
use blockade.Prelude.Int.{ℤ, pos, ◌+ℤ◌, ◌-ℤ◌, ◌*ℤ◌, leb_ℤ, wrap64}
use blockade.Std.Http.{Request}

unfoldable pub curve_price : ℤ → ℤ → ℤ → ℤ
curve_price n floor slope =
    if leb_ℤ n (pos 1) then floor else wrap64 (floor +ℤ wrap64 (slope *ℤ wrap64 (n -ℤ pos 1)))

-- r.WithContext(payment.WithPrice(r.Context(), sats))
unfoldable pub with_price : ℤ → Request → Request
with_price sats r = record r { price = some sats }

-- `priceSats, ok := payment.PriceFromContext(r.Context()); !ok || priceSats <= 0` is the error.
unfoldable pub price_from_context : Request → Option ℤ
price_from_context r = r.price

unfoldable pub positive_price : Request → Result ℤ
unfolding price_from_context
positive_price r = elim (price_from_context r) [
  | none ↦ err (new "price not set in context")
  | some sats ↦ if leb_ℤ sats (pos 0) then err (new "price not set in context") else ok sats
]
