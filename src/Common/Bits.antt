-- ===== src/Common/Bits.antt =====
-- Laws of `bit_xor` at variables, from the recursion on binary digits that it stands for.
use Prim.Native.Nat.{digits, bitwise, bit_xor-bitwise, bit_or-bitwise, differ}
use mathlib.Core.WellFounded
use native.Mathlib.Nat.{pow-suc}
use fma_common.Common.{
  ℕ, zero, suc, ◌+◌, ◌-◌, ◌*◌, ◌/◌, ◌%◌, ◌^◌, ◌≤◌, ◌<◌, bit_xor, bit_or, max, ◌≡◌, refl, arith,
}
use fma_common.Common.Order.{lt_wf}

digits-zero :
    (ending : ℕ → ℕ) (combine : ℕ → ℕ → ℕ) (fuel y : ℕ) → digits ending combine fuel 0 y ≡ ending y
digits-zero ending combine zero y = refl
digits-zero ending combine (suc fuel) y = refl

-- Fuel beyond the left argument is not used.
spare_fuel :
    (ending : ℕ → ℕ) (combine : ℕ → ℕ → ℕ) (extra fuel x y : ℕ)
    → x ≤ fuel
    → digits ending combine (extra + fuel) x y ≡ digits ending combine fuel x y
spare_fuel ending combine zero fuel x y enough =
    let none_extra : 0 + fuel ≡ fuel = omega arith in rw none_extra refl
spare_fuel ending combine (suc extra) fuel zero y enough =
    rw (digits-zero ending combine (suc extra + fuel) y, digits-zero ending combine fuel y) refl
spare_fuel ending combine (suc extra) zero (suc x) y enough = absurd (omega arith)
spare_fuel ending combine (suc extra) (suc fuel) (suc x) y enough =
    let shift : extra + suc fuel ≡ suc extra + fuel = omega arith in
    let halves : digits ending combine (extra + suc fuel) (suc x / 2) (y / 2)
        ≡ digits ending combine fuel (suc x / 2) (y / 2) =
      rw shift (spare_fuel ending combine (suc extra) fuel (suc x / 2) (y / 2) (omega arith)) in
    let out : suc extra + suc fuel ≡ suc (extra + suc fuel) = omega arith in rw (out, halves) refl

lowest_digit :
    (ending : ℕ → ℕ) (combine : ℕ → ℕ → ℕ) (x y : ℕ)
    → let half = suc x / 2 in
      bitwise ending combine (suc x) y
      ≡ bitwise ending combine half (y / 2) * 2 + combine (suc x % 2) (y % 2)
lowest_digit ending combine x y =
    let half = suc x / 2 in
    let fuel : x - half + half ≡ x = omega arith in
    omega (arith, rw fuel at (spare_fuel ending combine (x - half) half half (y / 2) (omega arith)))

differ-sum : (x y : ℕ) → x < 2 → y < 2 → differ x y ≡ (x + y) % 2
differ-sum zero zero hx hy = omega arith
differ-sum zero (suc y) hx hy = omega arith
differ-sum (suc x) zero hx hy = omega arith
differ-sum (suc zero) (suc zero) hx hy = refl
differ-sum (suc zero) (suc (suc y)) hx hy = absurd (omega arith)
differ-sum (suc (suc x)) (suc y) hx hy = absurd (omega arith)

pub zero-bit_xor : (b : ℕ) → bit_xor 0 b ≡ b
zero-bit_xor b = simp bit_xor-bitwise

pub bit_xor_step : (a b : ℕ) → bit_xor a b ≡ bit_xor (a / 2) (b / 2) * 2 + (a + b) % 2
bit_xor_step zero b = omega (arith, zero-bit_xor b, zero-bit_xor (b / 2))
bit_xor_step (suc a) b =
    omega (arith, digit_step, differ-sum (suc a % 2) (b % 2) (omega arith) (omega arith))
  where
    digit_step : bit_xor (suc a) b ≡ bit_xor (suc a / 2) (b / 2) * 2 + differ (suc a % 2) (b % 2)
    digit_step = simp bit_xor-bitwise (lowest_digit (λ y. y) differ a b)

-- Each law goes from `a / 2` and `b / 2` to `a` and `b`, below a bound on `a`.
bit_xor-zero : (a : ℕ) → bit_xor a 0 ≡ a
bit_xor-zero a = WellFounded.induction lt_wf {C = λ n. bit_xor n 0 ≡ n} a step
  where
    step : (n : ℕ) → ((m : ℕ) → m < n → bit_xor m 0 ≡ m) → bit_xor n 0 ≡ n
    step zero ih = zero-bit_xor 0
    step (suc n) ih = omega (arith, bit_xor_step (suc n) 0, ih (suc n / 2) (omega arith))

-- The width is the recursion's measure: both arguments fit `k` bits.
pub bit_xor-lt : (k a b : ℕ) → a < 2 ^ k → b < 2 ^ k → bit_xor a b < 2 ^ k
bit_xor-lt zero a b ha hb = ground (arith, zero-bit_xor b)
bit_xor-lt (suc k) a b ha hb = omega (
  arith,
  pow-suc 2 k,
  bit_xor_step a b,
  bit_xor-lt k (a / 2) (b / 2) (omega (arith, pow-suc 2 k)) (omega (arith, pow-suc 2 k)),
)

-- Xor with the same word twice gives the word back.
pub bit_xor_cancel : (k a b : ℕ) → a < 2 ^ k → b < 2 ^ k → bit_xor (bit_xor a b) b ≡ a
bit_xor_cancel zero a b ha hb = ground (arith, zero-bit_xor b)
bit_xor_cancel (suc k) a b ha hb = ground (
  arith,
  bit_xor_step (bit_xor a b) b,
  bit_xor_step a b,
  pow-suc 2 k,
  bit_xor_cancel k (a / 2) (b / 2),
)

-- A word that is mixed in twice, with another in between, cancels.
pub bit_xor_sandwich :
    (k a b c : ℕ)
    → a < 2 ^ k
    → b < 2 ^ k
    → c < 2 ^ k
    → bit_xor (bit_xor (bit_xor a b) c) b ≡ bit_xor a c
bit_xor_sandwich zero a b c ha hb hc = ground (arith, zero-bit_xor 0)
bit_xor_sandwich (suc k) a b c ha hb hc = ground (
  arith,
  bit_xor_step (bit_xor (bit_xor a b) c) b,
  bit_xor_step (bit_xor a b) c,
  bit_xor_step a b,
  bit_xor_step a c,
  pow-suc 2 k,
  bit_xor_sandwich k (a / 2) (b / 2) (c / 2),
)

zero-bit_or : (b : ℕ) → bit_or 0 b ≡ b
zero-bit_or b = simp bit_or-bitwise

bit_or_step : (a b : ℕ) → bit_or a b ≡ bit_or (a / 2) (b / 2) * 2 + max (a % 2) (b % 2)
bit_or_step zero b = omega (arith, zero-bit_or b, zero-bit_or (b / 2))
bit_or_step (suc a) b = lowest
  where
    lowest : bit_or (suc a) b ≡ bit_or (suc a / 2) (b / 2) * 2 + max (suc a % 2) (b % 2)
    lowest = simp bit_or-bitwise (lowest_digit (λ c. c) max a b)

pub bit_or-lt : (k a b : ℕ) → a < 2 ^ k → b < 2 ^ k → bit_or a b < 2 ^ k
bit_or-lt zero a b ha hb = ground (arith, zero-bit_or b)
bit_or-lt (suc k) a b ha hb = omega (
  arith,
  pow-suc 2 k,
  bit_or_step a b,
  bit_or-lt k (a / 2) (b / 2) (omega (arith, pow-suc 2 k)) (omega (arith, pow-suc 2 k)),
)
