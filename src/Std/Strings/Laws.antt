-- ===== src/Std/Strings/Laws.antt =====
-- Laws of the functions on strings.
use blockade.Prelude.{
  eqb, Bool-cases, All, Bytes, ℕ, zero, suc, ◌+◌, ◌-◌, ◌*◌, ◌/◌, ◌%◌, ◌≤◌, ◌<◌, ◌≡◌, ap, ◌≢◌, inl,
  inr, some, [], ◌∷◌, ◌++◌, arith,
}
use blockade.Std.Strings.{split_at, digits, decimal}

-- A text is split at the first separator.
pub split_at-first :
    (sep : ℕ) (a b : Bytes) → All (λ c. c ≢ sep) a → split_at sep (a ++ (sep ∷ b)) ≡ some (a, b)
unfolding split_at
split_at-first sep [] b h = ground arith
split_at-first sep (c ∷ a) b h = ground (arith, split_at-first sep a b)

-- The number that decimal digits behind `acc` stand for.
unfoldable pub number_from : ℕ → Bytes → ℕ
number_from acc [] = acc
number_from acc (c ∷ s) = number_from (acc * 10 + (c - b'0')) s

abbrev pub IsDigit : ℕ → Type 0
IsDigit c = (b'0' ≤ c) × (c ≤ b'9')

-- One digit more.
number_from-digit :
    (acc n : ℕ) (rest : Bytes)
    → acc * 10 + n % 10 ≡ n
    → number_from acc ((b'0' + n % 10) ∷ rest) ≡ number_from n rest
unfolding number_from
number_from-digit acc n rest e =
    let last : acc * 10 + (b'0' + n % 10 - b'0') ≡ n = omega (arith, e) in
    ap (λ x. number_from x rest) last

-- With more fuel than the number is large, every digit is written.
digits-number :
    (f n : ℕ) (rest : Bytes) → n < f → number_from 0 (digits f n rest) ≡ number_from n rest
unfolding digits
digits-number zero n rest enough = absurd (omega arith)
digits-number (suc f) n rest enough = elim (Bool-cases (eqb (n / 10) 0)) [
  | inl e ↦ rw (e, digits) (number_from-digit 0 n rest (ground arith))
  | inr e ↦
      rw (e, digits, digits-number f (n / 10) ((b'0' + n % 10) ∷ rest) (ground arith))
        (number_from-digit (n / 10) n rest (omega arith))
]

digits-IsDigit : (f n : ℕ) (rest : Bytes) → All IsDigit rest → All IsDigit (digits f n rest)
unfolding digits
digits-IsDigit zero n rest h = h
digits-IsDigit (suc f) n rest h =
    let longer : All IsDigit ((b'0' + n % 10) ∷ rest) = ((omega arith, omega arith), h) in
    elim (Bool-cases (eqb (n / 10) 0)) [
      | inl e ↦ rw (e, digits) longer
      | inr e ↦ rw (e, digits) (digits-IsDigit f (n / 10) ((b'0' + n % 10) ∷ rest) longer)
    ]

digits_filled : (f n : ℕ) (rest : Bytes) → rest ≢ [] → digits f n rest ≢ []
unfolding digits
digits_filled zero n rest h = h
digits_filled (suc f) n rest h = elim (Bool-cases (eqb (n / 10) 0)) [
  | inl e ↦ rw (e, digits) (λ k. cc)
  | inr e ↦ rw (e, digits) (digits_filled f (n / 10) ((b'0' + n % 10) ∷ rest) (λ k. cc))
]

pub decimal-number : (n : ℕ) → number_from 0 (decimal n) ≡ n
unfolding decimal number_from
decimal-number n = digits-number (suc n) n [] (omega arith)

pub decimal-IsDigit : (n : ℕ) → All IsDigit (decimal n)
unfolding decimal
decimal-IsDigit n = digits-IsDigit (suc n) n [] tt

pub decimal_filled : (n : ℕ) → decimal n ≢ []
unfolding decimal digits
decimal_filled n = elim (Bool-cases (eqb (n / 10) 0)) [
  | inl e ↦ rw (e, digits) (λ k. cc)
  | inr e ↦ rw (e, digits) (digits_filled n (n / 10) ((b'0' + n % 10) ∷ []) (λ k. cc))
]
