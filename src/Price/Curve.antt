-- ===== src/Price/Curve.antt =====
-- CurvePrice of internal/payment/pricing.go against exact arithmetic.
use blockade.Prelude.{ℕ, zero, suc, ◌+◌, ◌-◌, ◌*◌, ◌^◌, ◌≤◌, ◌<◌, ◌≡◌, ap, arith}
use blockade.Prelude.Int.{pos, negsuc, ◌+ℤ◌, ◌-ℤ◌, ◌*ℤ◌, ◌<ℤ◌, pos_part, wrap64}
use blockade.Price.{curve_price}

-- floor + slope * (n - 1)
abbrev pub exact : ℕ → ℕ → ℕ → ℕ
exact n floor slope = floor + slope * (n - 1)

step-pos : (n : ℕ) → 1 ≤ n → n < 2 ^ 63 → wrap64 (pos n -ℤ pos 1) ≡ pos (n - 1)
unfolding ◌-ℤ◌ wrap64
step-pos n h b = ground arith

mul-pos : (a b : ℕ) → a * b < 2 ^ 63 → wrap64 (pos a *ℤ pos b) ≡ pos (a * b)
unfolding ◌*ℤ◌ wrap64
mul-pos a b h = ground arith

add-pos : (a b : ℕ) → a + b < 2 ^ 63 → wrap64 (pos a +ℤ pos b) ≡ pos (a + b)
unfolding ◌+ℤ◌ wrap64
add-pos a b h = ground arith

add-wraps :
    (a b : ℕ)
    → a < 2 ^ 63
    → b < 2 ^ 63
    → 2 ^ 63 ≤ a + b
    → wrap64 (pos a +ℤ pos b) ≡ negsuc (2 ^ 64 - 1 - (a + b))
unfolding ◌+ℤ◌ wrap64
add-wraps a b f s over = ground arith

-- For the request n >= 1, where n and floor + slope * (n - 1) are below 2 ^ 63, the int64
-- computation gives floor + slope * (n - 1).
pub curve_price-exact :
    (n floor slope : ℕ)
    → 1 ≤ n
    → n < 2 ^ 63
    → exact n floor slope < 2 ^ 63
    → curve_price (pos n) (pos floor) (pos slope) ≡ pos (exact n floor slope)
unfolding curve_price
curve_price-exact n floor slope h b fits = ground (
  arith,
  step-pos n h b,
  mul-pos slope (n - 1) (omega arith),
  add-pos floor (slope * (n - 1)) fits,
)

-- With a positive slope every further request costs strictly more, where nothing passes 2 ^ 63.
pub curve_price-lt :
    (m n floor slope : ℕ)
    → 1 ≤ m
    → m < n
    → 1 ≤ slope
    → n < 2 ^ 63
    → exact n floor slope < 2 ^ 63
    → curve_price (pos m) (pos floor) (pos slope) <ℤ curve_price (pos n) (pos floor) (pos slope)
curve_price-lt m n floor slope h lt s b fits =
    let gap : exact m floor slope < exact n floor slope = grind arith in
    rw
      (
        curve_price-exact m floor slope h (omega arith) (omega arith),
        curve_price-exact n floor slope (omega arith) b fits,
      )
      (omega arith)

-- What `n` requests under one credential cost together.
pub total : ℕ → ℕ → ℕ → ℕ
total zero floor slope = 0
total (suc n) floor slope =
    total n floor slope + pos_part (curve_price (pos (suc n)) (pos floor) (pos slope))

exact_mono : (n floor slope : ℕ) → exact n floor slope ≤ exact (suc n) floor slope
exact_mono n floor slope = grind arith

suc-sub-one : (n : ℕ) → suc n - 1 ≡ n
suc-sub-one n = omega arith

add_next :
    (n floor slope t : ℕ)
    → 2 * t ≡ 2 * (n * floor) + slope * (n * (n - 1))
    → 2 * (t + (floor + slope * n)) ≡ 2 * (suc n * floor) + slope * (suc n * n)
add_next zero floor slope t h = omega arith
add_next (suc n) floor slope t h = let h' = rw (suc-sub-one n) at h in omega arith

-- Twice the cost of n requests together is 2 n floor + slope n (n - 1), where nothing passes 2 ^ 63.
pub total-eq :
    (n floor slope : ℕ)
    → n < 2 ^ 63
    → exact n floor slope < 2 ^ 63
    → 2 * total n floor slope ≡ 2 * (n * floor) + slope * (n * (n - 1))
unfolding total
total-eq zero floor slope b fits = omega arith
total-eq (suc n) floor slope b fits =
    let ih = total-eq n floor slope (omega arith) (omega (arith, exact_mono n floor slope)) in
    let here = ap pos_part (curve_price-exact (suc n) floor slope (omega arith) b fits) in
    let here' = rw (suc-sub-one n) at here in
    rw (suc-sub-one n) (omega (arith, add_next n floor slope (total n floor slope) ih))

-- From the second request on, where floor + slope * (n - 1) is 2 ^ 63 or more and neither term is,
-- the price is negative.
pub curve_price_overflow :
    (n floor slope : ℕ)
    → 2 ≤ n
    → n < 2 ^ 63
    → floor < 2 ^ 63
    → slope * (n - 1) < 2 ^ 63
    → 2 ^ 63 ≤ exact n floor slope
    → curve_price (pos n) (pos floor) (pos slope) <ℤ pos 0
unfolding curve_price
curve_price_overflow n floor slope h b f s over = ground (
  arith,
  step-pos n (omega arith) b,
  mul-pos slope (n - 1) s,
  add-wraps floor (slope * (n - 1)) f s over,
)
