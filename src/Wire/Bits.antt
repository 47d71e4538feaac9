-- ===== src/Wire/Bits.antt =====
-- Facts on exclusive or, on or of disjoint digits, and on one block of wire.py.
use Prim.Native.Nat.{bit_or, bit_xor, bit_or-bitwise, bit_xor-bitwise, digits, differ}
use kungfukid_local_server.Base.{
  ℕ, zero, suc, ◌+◌, ◌*◌, ◌/◌, ◌%◌, ◌^◌, ◌≤◌, ◌<◌, ◌≡◌, refl, max, arith, ◌∙◌, ap,
}
use kungfukid_local_server.Wire.Frames.{encode_block, decode_block}

abbrev xor_digits : ℕ → ℕ → ℕ → ℕ
xor_digits n a b = digits (λ b. b) differ n a b

xor_digits_fuel : (n m a b : ℕ) → a ≤ n → a ≤ m → xor_digits n a b ≡ xor_digits m a b
xor_digits_fuel zero zero a b p q = refl
xor_digits_fuel zero (suc m) zero b p q = refl
xor_digits_fuel zero (suc m) (suc a) b p q = absurd (omega arith)
xor_digits_fuel (suc n) zero zero b p q = refl
xor_digits_fuel (suc n) zero (suc a) b p q = absurd (omega arith)
xor_digits_fuel (suc n) (suc m) zero b p q = refl
xor_digits_fuel (suc n) (suc m) (suc a) b p q =
    omega (arith, xor_digits_fuel n m (suc a / 2) (b / 2) (omega arith) (omega arith))

zero-bit_xor : (b : ℕ) → bit_xor 0 b ≡ b
zero-bit_xor b = bit_xor-bitwise 0 b

zero-differ : (b : ℕ) → differ 0 b ≡ b
zero-differ b = refl

xor_step : (a b : ℕ) → bit_xor a b ≡ bit_xor (a / 2) (b / 2) * 2 + differ (a % 2) (b % 2)
xor_step zero b = omega (arith, zero-bit_xor b, zero-bit_xor (b / 2))
xor_step (suc a) b = omega (
  arith,
  bit_xor-bitwise (suc a) b,
  bit_xor-bitwise (suc a / 2) (b / 2),
  xor_digits_fuel a (suc a / 2) (suc a / 2) (b / 2) (omega arith) (omega arith),
)

-- On two digits.
differ_cases : (x y : ℕ) → x < 2 → y < 2 → (differ x y < 2) × (differ (differ x y) y ≡ x)
differ_cases zero zero p q = (omega arith, refl)
differ_cases zero (suc zero) p q = (omega arith, refl)
differ_cases (suc zero) zero p q = (omega arith, refl)
differ_cases (suc zero) (suc zero) p q = (omega arith, refl)
differ_cases (suc (suc x)) y p q = absurd (omega arith)
differ_cases x (suc (suc y)) p q = absurd (omega arith)

xor_twice_fuel : (n a b : ℕ) → a ≤ n → b ≤ n → bit_xor (bit_xor a b) b ≡ a
xor_twice_fuel zero zero zero p q = omega (arith, zero-bit_xor 0, zero-bit_xor (bit_xor 0 0))
xor_twice_fuel zero (suc a) b p q = absurd (omega arith)
xor_twice_fuel zero a (suc b) p q = absurd (omega arith)
xor_twice_fuel (suc n) a b p q =
    let x = bit_xor (a / 2) (b / 2) in
    let low = differ (a % 2) (b % 2) in
    let (small, back) = differ_cases (a % 2) (b % 2) (omega arith) (omega arith) in
    let first = xor_step a b in
    let half : bit_xor a b / 2 ≡ x = omega arith in
    let digit : bit_xor a b % 2 ≡ low = omega arith in
    let second : bit_xor (bit_xor a b) b ≡ bit_xor x (b / 2) * 2 + differ low (b % 2) =
      xor_step (bit_xor a b) b ∙ rw (half, digit) refl in
    let above = xor_twice_fuel n (a / 2) (b / 2) (omega arith) (omega arith) in omega arith

-- `h * 2 ^ k`, so that a digit is a step
abbrev dbl : ℕ → ℕ → ℕ
dbl zero h = h
dbl (suc k) h = dbl k h * 2

xor_bound : (w a b : ℕ) → a < dbl w 1 → b < dbl w 1 → bit_xor a b < dbl w 1
xor_bound zero zero zero p q = omega (arith, zero-bit_xor 0)
xor_bound zero (suc a) b p q = absurd (omega arith)
xor_bound zero a (suc b) p q = absurd (omega arith)
xor_bound (suc w) a b p q =
    let (small, _) = differ_cases (a % 2) (b % 2) (omega arith) (omega arith) in
    omega (arith, xor_step a b, xor_bound w (a / 2) (b / 2) (omega arith) (omega arith))

abbrev or_digits : ℕ → ℕ → ℕ → ℕ
or_digits n a b = digits (λ b. b) max n a b

or_digits_fuel : (n m a b : ℕ) → a ≤ n → a ≤ m → or_digits n a b ≡ or_digits m a b
or_digits_fuel zero zero a b p q = refl
or_digits_fuel zero (suc m) zero b p q = refl
or_digits_fuel zero (suc m) (suc a) b p q = absurd (omega arith)
or_digits_fuel (suc n) zero zero b p q = refl
or_digits_fuel (suc n) zero (suc a) b p q = absurd (omega arith)
or_digits_fuel (suc n) (suc m) zero b p q = refl
or_digits_fuel (suc n) (suc m) (suc a) b p q =
    omega (arith, or_digits_fuel n m (suc a / 2) (b / 2) (omega arith) (omega arith))

zero-bit_or : (b : ℕ) → bit_or 0 b ≡ b
zero-bit_or b = bit_or-bitwise 0 b

or_step : (a b : ℕ) → bit_or a b ≡ bit_or (a / 2) (b / 2) * 2 + max (a % 2) (b % 2)
or_step zero b = omega (arith, zero-bit_or b, zero-bit_or (b / 2))
or_step (suc a) b = omega (
  arith,
  bit_or-bitwise (suc a) b,
  bit_or-bitwise (suc a / 2) (b / 2),
  or_digits_fuel a (suc a / 2) (suc a / 2) (b / 2) (omega arith) (omega arith),
)

or_zero_fuel : (n a : ℕ) → a ≤ n → bit_or a 0 ≡ a
or_zero_fuel zero zero p = zero-bit_or 0
or_zero_fuel zero (suc a) p = absurd (omega arith)
or_zero_fuel (suc n) zero p = zero-bit_or 0
or_zero_fuel (suc n) (suc a) p =
    omega (arith, or_step (suc a) 0, or_zero_fuel n (suc a / 2) (omega arith))

-- Low digits and high ones do not meet.
or_high : (k lo h : ℕ) → lo < dbl k 1 → bit_or lo (dbl k h) ≡ lo + dbl k h
or_high zero zero h p = omega (arith, zero-bit_or h)
or_high zero (suc lo) h p = absurd (omega arith)
or_high (suc k) lo h p =
    let half : dbl (suc k) h / 2 ≡ dbl k h = omega arith in
    let first : bit_or lo (dbl (suc k) h)
        ≡ bit_or (lo / 2) (dbl k h) * 2 + max (lo % 2) (dbl k h * 2 % 2) =
      or_step lo (dbl (suc k) h) ∙ rw half refl in
    omega (arith, or_high k (lo / 2) h (omega arith))

or_low : (k lo h : ℕ) → lo < dbl k 1 → bit_or (dbl k h) lo ≡ dbl k h + lo
or_low zero zero h p = omega (arith, or_zero_fuel h h (omega arith))
or_low zero (suc lo) h p = absurd (omega arith)
or_low (suc k) lo h p =
    let half : dbl (suc k) h / 2 ≡ dbl k h = omega arith in
    let first : bit_or (dbl (suc k) h) lo
        ≡ bit_or (dbl k h) (lo / 2) * 2 + max (dbl k h * 2 % 2) (lo % 2) =
      or_step (dbl (suc k) h) lo ∙ rw half refl in
    omega (arith, or_low k (lo / 2) h (omega arith))

-- A block that is decoded with the key it was encoded with is the block, and an encoded block has
-- 64 bits.
pub block_round :
    (k v : ℕ)
    → k < 2 ^ 64
    → v < 2 ^ 64
    → (decode_block k (encode_block k v) ≡ v) × (encode_block k v < 2 ^ 64)
block_round k v hk hv =
    let c = v % 2 ^ 61 in
    let b = v / 2 ^ 61 in
    let w = c * 8 + b in
    let shifted : v * 8 % 2 ^ 64 ≡ dbl 3 c = omega arith in
    let turned : bit_or (v * 8 % 2 ^ 64) b ≡ w =
      ap (λ x. bit_or x b) shifted ∙ (or_low 3 b c (omega arith) ∙ omega arith) in
    let sealed : encode_block k v ≡ bit_xor w k = ap (λ x. bit_xor x k) turned in
    let opened : bit_xor (encode_block k v) k ≡ w =
      ap (λ x. bit_xor x k) sealed ∙ xor_twice_fuel (w + k) w k (omega arith) (omega arith) in
    let low : w / 8 ≡ c = omega arith in
    let high : w * 2 ^ 61 % 2 ^ 64 ≡ dbl 61 b = omega arith in
    (
      ap (λ x. bit_or (x / 8) (x * 2 ^ 61 % 2 ^ 64)) opened
          ∙ (ap (λ x. bit_or x (w * 2 ^ 61 % 2 ^ 64)) low
              ∙ (ap (λ x. bit_or c x) high ∙ (or_high 61 c b (omega arith) ∙ omega arith))),
      rw sealed (xor_bound 64 w k (omega arith) (omega arith)),
    )
