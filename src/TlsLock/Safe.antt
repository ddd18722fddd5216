-- ===== src/TlsLock/Safe.antt =====
-- Every step of the `InterruptableTLSRWLock` (fma-common/rw_lock.h) keeps the invariant, for any number of
-- threads below `n`.
use fma_common.Common.{
  ℕ, zero, suc, ◌+◌, ◌≤◌, ◌<◌, ◌≡◌, ◌≢◌, inl, inr, Option, none, some, true, false, arith, refl,
  Bool-cases, ℕ_discrete, dec_lt, subst, sym,
}
use fma_common.TlsLock.{
  LockStatus, Place, idle, Local, local, Globals, Act, InterruptableTlsRwLock, Step, step, initial,
  Reaches, here, next,
}
use fma_common.TlsLock.Invariant.{
  writers, owns, Placed, Counted, Change, granted, past, Placed-Change, Change-owner,
  Placed-counted, Placed-past, granted-reads, owns-le,
}
use fma_common.TlsLock.Steps.{Act-Counted, Act-Placed, Act-Change, Act-granted, Act-past, Act-owner}
use fma_common.Common.Threads.{put, put_cases, total, total-put, weight-le, total-le, pair-le}

abbrev pub writers_of : Local → ℕ
writers_of m = writers m.at

abbrev pub owns_of : Local → ℕ
owns_of m = owns m.at

module _ (n : ℕ) where
  -- Every thread's place agrees with the members.
  abbrev pub Placements : InterruptableTlsRwLock → Type 0
  Placements s = (j : ℕ) → j < n → Placed n j (s.threads j).at (s.threads j).reads s.globals

  -- A thread that holds a lock for reading is not one that a writer passed, and no other thread writes.
  abbrev pub Apart : (i j : ℕ) → Local → Local → Globals → Type 0
  Apart i j a b g =
      i < n → j < n → i ≢ j → granted b ≡ true → (past a.at j ≡ false) × (g.curr_writer ≢ some i)

  abbrev pub Safe : InterruptableTlsRwLock → Type 0
  Safe s =
      Counted (total writers_of s.threads n) (total owns_of s.threads n) s.globals
      × Placements s
      × ((i : ℕ) → s.globals.curr_writer ≡ some i → i < n)
      × ((i j : ℕ) → Apart i j (s.threads i) (s.threads j) s.globals)

  no_writer : (c : Option ℕ) → ((i : ℕ) → c ≢ some i) → c ≡ none
  no_writer none h = refl
  no_writer (some i) h = absurd (h i refl)

  free-none :
      (s : InterruptableTlsRwLock) → Safe s → s.globals.n_writers ≡ 0 → s.globals.curr_writer ≡ none
  free-none s (count, placed, range, apart) free = no_writer _ (λ i e.
      let inside = range i e in
      let some_count = Placed-counted n i _ s.globals _ (placed i inside) e in
      let le = weight-le writers_of s.threads i n inside in ground arith)

  -- An operation of thread `t` on a safe state.
  module _ (s : InterruptableTlsRwLock) (safe : Safe s) {q : Place} {r : ℕ} {g : Globals}
      {ret : Option LockStatus} (t : ℕ) (inside : t < n)
      (act : Act n t s.threads (s.threads t).at q (s.threads t).reads r s.globals g ret) where
    change : Change t (owns (s.threads t).at) s.globals g
    change = Act-Change act (safe.1 t inside)

    Counted-after :
        Counted
          (total writers_of (put s.threads t (local q r)) n)
          (total owns_of (put s.threads t (local q r)) n)
          g
    Counted-after =
        Act-Counted _ _ _ _ act (total-put writers_of s.threads t n (local q r) inside)
          (total-put owns_of s.threads t n (local q r) inside)
          (
            weight-le writers_of s.threads t n inside,
            total-le owns_of writers_of s.threads (λ m. owns-le m.at) n,
          )
          (safe.1 t inside) safe.0

    placed_after : Placements (record { globals = g; threads = put s.threads t (local q r) })
    placed_after =
        put_cases (λ j m. j < n → Placed n j m.at m.reads g) s.threads t (local q r)
          (λ _. Act-Placed act (free-none s safe) (safe.1 t inside))
          (λ j differ below.
            Placed-Change n _ s.globals g (s.threads j).at differ (alone j differ below) change
              (safe.1 j below))
      where
        alone : (j : ℕ) → t ≢ j → j < n → owns (s.threads t).at + owns (s.threads j).at ≤ 1
        alone j differ below = elim (dec_lt t j) [
          | yes lt ↦ omega (arith, pair-le owns_of s.threads t j n lt below, safe.0.1)
          | no ge ↦
              omega
                (arith, pair-le owns_of s.threads j t n (ground (arith, differ)) inside, safe.0.1)
        ]

    range_after : (i : ℕ) → g.curr_writer ≡ some i → i < n
    range_after i e = elim (ℕ_discrete t i) [
      | yes same ↦ subst (λ k. k < n) same inside
      | no differ ↦ safe.2 i (Change-owner s.globals g differ change e)
    ]

    -- The thread itself, against a thread `j`.
    mover-Apart : (j : ℕ) → Apart t j (local q r) (s.threads j) g
    mover-Apart j _ below differ reads =
        let (before, owner) = safe.3 t j inside below differ reads in
        let some_read = granted-reads (s.threads j).at (s.threads j).reads reads in
        (
          elim (Bool-cases (past q j)) [
            | inl e ↦ absurd (
                ground
                  (arith, Act-past j below (λ same. differ (sym same)) act e, before, some_read))
            | inr e ↦ e
          ],
          λ e. elim (Act-owner j act (safe.1 t inside) e) [
            | inl w ↦ owner w
            | inr found ↦ ground (arith, found, before)
          ],
        )

    -- A thread `i` against the one that moves.
    moved-Apart : (i : ℕ) → t ≢ i → Apart i t (s.threads i) (local q r) g
    moved-Apart i differ below _ other reads = elim (Act-granted act (safe.1 t inside) reads) [
      | inl e ↦
          let (before, owner) = safe.3 i t below inside other e in
          (before, λ w. owner (Change-owner s.globals g differ change w))
      | inr (inl free) ↦
          let nobody = free-none s safe free in
          (
            elim (Bool-cases (past (s.threads i).at t)) [
              | inl e ↦ absurd (
                  ground (
                    arith,
                    Placed-past n i _ t s.globals _ (safe.1 i below) e,
                    weight-le writers_of s.threads i n below,
                    safe.0,
                  ))
              | inr e ↦ e
            ],
            λ w. ground (arith, Change-owner s.globals g differ change w, nobody),
          )
      | inr (inr own) ↦ (
        elim (Bool-cases (past (s.threads i).at t)) [
          | inl e ↦ absurd (ground (arith, Placed-past n i _ t s.globals _ (safe.1 i below) e, own))
          | inr e ↦ e
        ],
        λ w. ground (arith, Change-owner s.globals g differ change w, own),
      )
    ]

    Apart-after :
        (i j : ℕ) → Apart i j (put s.threads t (local q r) i) (put s.threads t (local q r) j) g
    Apart-after i j =
        put_cases (λ i m. Apart i j m (put s.threads t (local q r) j) g) s.threads t (local q r)
          (put_cases (λ j m. Apart t j (local q r) m g) s.threads t (local q r)
            (λ _ _ same. absurd (same refl)) (λ j _. mover-Apart j) j)
          (λ i differ.
            put_cases (λ j m. Apart i j (s.threads i) m g) s.threads t (local q r)
              (moved-Apart i differ)
              (λ j _ hi hj other reads.
                let (before, owner) = safe.3 i j hi hj other reads in
                (before, λ w. owner (Change-owner s.globals g differ change w)))
              j)
          i

  Step-Safe : {s u : InterruptableTlsRwLock} → Step n s u → Safe s → Safe u
  Step-Safe (step {s} t inside act) safe = (
    Counted-after s safe t inside act,
    placed_after s safe t inside act,
    range_after s safe t inside act,
    Apart-after s safe t inside act,
  )

  zero_total :
      (weight : Local → ℕ)
      → weight (local idle 0) ≡ 0
      → (m : ℕ) → total weight (λ _. local idle 0) m ≡ 0
  unfolding total
  zero_total weight h zero = refl
  zero_total weight h (suc m) = rw (zero_total weight h m) (omega (arith, h))

  initial-Safe : Safe initial
  unfolding initial
  initial-Safe = (
    ground (arith, zero_total writers_of refl n, zero_total owns_of refl n),
    (λ _ _. λ e. ground (arith, e)),
    (λ _ e. ground (arith, e)),
    (λ _ _ _ _ _ e. ground (arith, e)),
  )

  pub Reaches-Safe : {s : InterruptableTlsRwLock} → Reaches n initial s → Safe s
  Reaches-Safe here = initial-Safe
  Reaches-Safe (next {t} {u} h move) = Step-Safe move (Reaches-Safe h)
