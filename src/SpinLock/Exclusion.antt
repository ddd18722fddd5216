-- ===== src/SpinLock/Exclusion.antt =====
-- Mutual exclusion of the `SpinningRWLock` (fma-common/rw_lock.h), for any number of threads and any
-- order of their steps.
use fma_common.Common.{
  ℕ, zero, suc, ◌+◌, ◌^◌, ◌≤◌, ◌<◌, ◌≡◌, refl, ap, ℕ_discrete, dec_lt, ◌≢◌, ◌⊎◌, inl, Bool, arith,
  if◌then◌else◌,
}
use fma_common.SpinLock.{
  Place, idle, read_begin, read_check, read_undo, read_spin, reading, write_begin, write_drain,
  write_held, SpinningRwLock, Act, read_call, read_enter, read_granted, read_denied, read_undone,
  read_spins, read_retry, read_unlock, write_call, write_spins, write_taken, write_waits,
  write_drained, write_unlock, Step, step, initial, Reaches, start, next,
}
use fma_common.Common.Threads.{put, total, total-put, weight-le, total-le, total_one, pair-le}

-- The threads that are counted in `n_readers`, and of these the ones that read.
abbrev counted : Place → ℕ
counted read_check = 1
counted read_undo = 1
counted reading = 1
counted _ = 0

abbrev reads : Place → ℕ
reads reading = 1
reads _ = 0

-- The threads that set `writing`, and of these the ones that write.
abbrev owns : Place → ℕ
owns write_drain = 1
owns write_held = 1
owns _ = 0

abbrev holds : Place → ℕ
holds write_held = 1
holds _ = 0

-- What the sums of these weights are, with the members.
abbrev Counts : ℕ → Bool → ℕ → ℕ → ℕ → ℕ → Type 0
Counts r w c d o h = (r ≡ c) × (o ≡ (if w then 1 else 0)) × ((h ≡ 0) ⊎ (d ≡ 0))

Act-Counts :
    {p q : Place} {r r' : ℕ} {w w' : Bool} (n c d o h c' d' o' h' : ℕ)
    → n < 2 ^ 64
    → Act p q r w r' w'
    → c' + counted p ≡ c + counted q
    → d' + reads p ≡ d + reads q
    → o' + owns p ≡ o + owns q
    → h' + holds p ≡ h + holds q
    → (counted p ≤ c) × (c' ≤ n) × (d ≤ c) × (h ≤ o)
    → Counts r w c d o h
    → Counts r' w' c' d' o' h'
Act-Counts n c d o h c' d' o' h' small read_call ec ed eo eh le k = ground arith
Act-Counts n c d o h c' d' o' h' small read_enter ec ed eo eh le k = ground arith
Act-Counts n c d o h c' d' o' h' small read_granted ec ed eo eh le k = ground arith
Act-Counts n c d o h c' d' o' h' small read_denied ec ed eo eh le k = ground arith
Act-Counts n c d o h c' d' o' h' small read_undone ec ed eo eh le k = ground arith
Act-Counts n c d o h c' d' o' h' small read_spins ec ed eo eh le k = ground arith
Act-Counts n c d o h c' d' o' h' small read_retry ec ed eo eh le k = ground arith
Act-Counts n c d o h c' d' o' h' small read_unlock ec ed eo eh le k = ground arith
Act-Counts n c d o h c' d' o' h' small write_call ec ed eo eh le k = ground arith
Act-Counts n c d o h c' d' o' h' small write_spins ec ed eo eh le k = ground arith
Act-Counts n c d o h c' d' o' h' small write_taken ec ed eo eh le k = ground arith
Act-Counts n c d o h c' d' o' h' small write_waits ec ed eo eh le k = ground arith
Act-Counts n c d o h c' d' o' h' small write_drained ec ed eo eh le k = ground arith
Act-Counts n c d o h c' d' o' h' small write_unlock ec ed eo eh le k = ground arith

reads-le : (p : Place) → reads p ≤ counted p
reads-le p = elim p as (λ q. reads q ≤ counted q) [
  | idle ↦ omega arith
  | read_begin ↦ omega arith
  | read_check ↦ omega arith
  | read_undo ↦ omega arith
  | read_spin ↦ omega arith
  | reading ↦ omega arith
  | write_begin ↦ omega arith
  | write_drain ↦ omega arith
  | write_held ↦ omega arith
]

holds-le : (p : Place) → holds p ≤ owns p
holds-le p = elim p as (λ q. holds q ≤ owns q) [
  | idle ↦ omega arith
  | read_begin ↦ omega arith
  | read_check ↦ omega arith
  | read_undo ↦ omega arith
  | read_spin ↦ omega arith
  | reading ↦ omega arith
  | write_begin ↦ omega arith
  | write_drain ↦ omega arith
  | write_held ↦ omega arith
]

counted-le : (p : Place) → counted p ≤ 1
counted-le p = elim p as (λ q. counted q ≤ 1) [
  | idle ↦ omega arith
  | read_begin ↦ omega arith
  | read_check ↦ omega arith
  | read_undo ↦ omega arith
  | read_spin ↦ omega arith
  | reading ↦ omega arith
  | write_begin ↦ omega arith
  | write_drain ↦ omega arith
  | write_held ↦ omega arith
]

module _ (n : ℕ) where
  abbrev Safe : SpinningRwLock → Type 0
  Safe s =
      Counts s.n_readers s.writing (total counted s.at n) (total reads s.at n) (total owns s.at n)
        (total holds s.at n)

  Step-Safe : {s t : SpinningRwLock} → n < 2 ^ 64 → Step n s t → Safe s → Safe t
  Step-Safe small (step {s} {to} i inside act) k =
      Act-Counts n _ _ _ _ _ _ _ _ small act (total-put counted s.at i n to inside)
        (total-put reads s.at i n to inside) (total-put owns s.at i n to inside)
        (total-put holds s.at i n to inside)
        (
          weight-le counted s.at i n inside,
          total_one counted (put s.at i to) counted-le n,
          total-le reads counted s.at reads-le n,
          total-le holds owns s.at holds-le n,
        )
        k

  zero_total : (weight : Place → ℕ) → weight idle ≡ 0 → (m : ℕ) → total weight (λ _. idle) m ≡ 0
  unfolding total
  zero_total weight h zero = refl
  zero_total weight h (suc m) = rw (zero_total weight h m) (omega (arith, h))

  initial-Safe : Safe initial
  unfolding initial
  initial-Safe = (
    omega (arith, zero_total counted refl n),
    omega (arith, zero_total owns refl n),
    inl (zero_total holds refl n),
  )

  Reaches-Safe : {s : SpinningRwLock} → n < 2 ^ 64 → Reaches n s → Safe s
  Reaches-Safe small start = initial-Safe
  Reaches-Safe small (next {s} {t} h move) = Step-Safe small move (Reaches-Safe small h)

  -- In every state that fewer than 2 ^ 64 threads reach from the start, by whatever order of their
  -- steps, no thread reads while a thread holds the lock for writing, and two threads that hold it
  -- for writing are the same.
  pub spin_lock_exclusion :
      {s : SpinningRwLock}
      → n < 2 ^ 64
      → Reaches n s
      → (i j : ℕ) → i < n
      → j < n
      → s.at i ≡ write_held
      → (s.at j ≢ reading) × (s.at j ≡ write_held → i ≡ j)
  spin_lock_exclusion {s} small h i j hi hj held =
      let (count, owner, alone) = Reaches-Safe small h in
      let hold : 1 ≤ total holds s.at n =
        omega (arith, weight-le holds s.at i n hi, ap holds held) in
      (
        λ r.
            let read : 1 ≤ total reads s.at n =
              omega (arith, weight-le reads s.at j n hj, ap reads r) in
            absurd (omega arith),
        one_writer owner held,
      )
    where
      apart :
          (a b : ℕ)
          → a < b
          → b < n
          → s.at a ≡ write_held
          → s.at b ≡ write_held
          → 2 ≤ total owns s.at n
      apart a b lt hb ea eb = omega (arith, pair-le owns s.at a b n lt hb, ap owns ea, ap owns eb)

      one_writer :
          total owns s.at n ≡ (if s.writing then 1 else 0)
          → s.at i ≡ write_held
          → s.at j ≡ write_held
          → i ≡ j
      one_writer owner ei ej = elim (ℕ_discrete i j) [
        | yes e ↦ e
        | no differ ↦ elim (dec_lt i j) [
          | yes lt ↦ absurd (ground (arith, apart i j lt hj ei ej))
          | no ge ↦ absurd (ground (arith, apart j i (omega arith) hi ej ei))
        ]
      ]
