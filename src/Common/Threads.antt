-- ===== src/Common/Threads.antt =====
-- What the lock models share: a value for each thread, threads being the numbers below a bound, and
-- sums over the threads.
use fma_common.Common.{
  ℕ, zero, suc, ◌+◌, ◌≤◌, ◌<◌, ◌≡◌, ◌≢◌, refl, false, arith, ◌==◌, ==_iff, if◌then◌else◌,
  Bool-cases, inl, inr,
}

-- The values after thread `i` changed to `p`.
unfoldable pub put {ℓ} : {P : Type ℓ} → (ℕ → P) → ℕ → P → ℕ → P
put at i p j = if j == i then p else at j

-- The weights of the places of the threads below `n`.
unfoldable pub total : {P : Type 0} → (P → ℕ) → (ℕ → P) → ℕ → ℕ
total weight at zero = 0
total weight at (suc n) = total weight at n + weight (at n)

-- What holds of the changed thread and of the others holds of every thread.
pub put_cases :
    {P : Type 0} (Q : ℕ → P → Type 0) (at : ℕ → P) (i : ℕ) (p : P)
    → Q i p
    → ((j : ℕ) → i ≢ j → Q j (at j))
    → (j : ℕ) → Q j (put at i p j)
unfolding put
put_cases Q at i p changed others j = elim (Bool-cases (j == i)) [
  | inl e ↦ let here : j ≡ i = (==_iff j i).0 e in rw (e, here) changed
  | inr e ↦ let other : i ≢ j = λ h. ground (arith, h, e) in rw e (others j other)
]

module _ {P : Type 0} (at : ℕ → P) where
  pub put_same : (i : ℕ) (p : P) → put at i p i ≡ p
  unfolding put
  put_same i p = rw ((==_iff i i).1 refl) refl

  put_other : (i j : ℕ) (p : P) → (j == i) ≡ false → put at i p j ≡ at j
  unfolding put
  put_other i j p h = rw h refl

module _ {P : Type 0} (weight : P → ℕ) (at : ℕ → P) where
  total_below : (i n : ℕ) (p : P) → n ≤ i → total weight (put at i p) n ≡ total weight at n
  unfolding total
  total_below i zero p h = refl
  total_below i (suc n) p h =
      let other : (n == i) ≡ false = ground arith in
      rw (total_below i n p (omega arith), put_other at i n p other) refl

  -- Moving one thread changes a sum by the weights of its two places.
  pub total-put :
      (i n : ℕ) (p : P)
      → i < n
      → total weight (put at i p) n + weight (at i) ≡ total weight at n + weight p
  unfolding total
  total-put i zero p h = absurd (omega arith)
  total-put i (suc n) p h = elim (Bool-cases (n == i)) [
    | inl e ↦
        let here : n ≡ i = (==_iff n i).0 e in
        rw (here, put_same at i p, total_below i i p (omega arith)) (omega arith)
    | inr e ↦
        let lower : i < n = ground arith in
        rw (put_other at i n p e) (omega (arith, total-put i n p lower))
  ]

  pub weight-le : (i n : ℕ) → i < n → weight (at i) ≤ total weight at n
  unfolding total
  weight-le i zero h = absurd (omega arith)
  weight-le i (suc n) h = elim (Bool-cases (n == i)) [
    | inl e ↦ let here : n ≡ i = (==_iff n i).0 e in rw here (omega arith)
    | inr e ↦ let lower : i < n = ground arith in omega (arith, weight-le i n lower)
  ]

  -- Two threads count for themselves.
  pub pair-le : (i j n : ℕ) → i < j → j < n → weight (at i) + weight (at j) ≤ total weight at n
  unfolding total
  pair-le i j zero h k = absurd (omega arith)
  pair-le i j (suc n) h k = elim (Bool-cases (n == j)) [
    | inl e ↦ let here : n ≡ j = (==_iff n j).0 e in rw here (omega (arith, weight-le i j h))
    | inr e ↦ let lower : j < n = ground arith in omega (arith, pair-le i j n h lower)
  ]

pub total-le :
    {P : Type 0} (u v : P → ℕ) (at : ℕ → P)
    → ((p : P) → u p ≤ v p)
    → (n : ℕ) → total u at n ≤ total v at n
unfolding total
total-le u v at h zero = omega arith
total-le u v at h (suc n) = omega (arith, total-le u v at h n, h (at n))

pub total_one :
    {P : Type 0} (u : P → ℕ) (at : ℕ → P) → ((p : P) → u p ≤ 1) → (n : ℕ) → total u at n ≤ n
unfolding total
total_one u at h zero = omega arith
total_one u at h (suc n) = omega (arith, total_one u at h n, h (at n))
