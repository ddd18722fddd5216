-- ===== src/TlsLock/Exclusion.antt =====
-- Mutual exclusion of the `InterruptableTLSRWLock` (fma-common/rw_lock.h), for any number of threads and
-- any order of their steps.
use fma_common.Common.{
  ℕ, ◌+◌, ◌≤◌, ◌<◌, ◌≡◌, ◌≢◌, inl, inr, Option, some, true, false, arith, Bool-cases, subst, ◌⊎◌,
}
use fma_common.TlsLock.{
  LockStatus, Place, idle, local, Globals, Act, InterruptableTlsRwLock, initial, Reaches, success,
  write_level, unlock_level, read_dec,
}
use fma_common.TlsLock.Invariant.{
  writers, owns, Placed, granted, Placed-other, method, read_lock, write_lock,
}
use fma_common.TlsLock.Steps.{Act-success}
use fma_common.Common.Threads.{total, weight-le}
use fma_common.TlsLock.Safe.{writers_of, Reaches-Safe}

module _ (n : ℕ) where
  -- If the atomic operations take effect in one order (sequential consistency), which is more than the
  -- acquire and release orders of the source promise: in every state that the threads below n reach from
  -- the start, by whatever order of their steps, when the writer is thread i, no other thread holds a
  -- lock for reading, none looks for readers, rolls back or is about to store `curr_writer_`, and none
  -- changes the level of reentry.
  pub tls_lock_exclusion :
      {s : InterruptableTlsRwLock}
      → Reaches n initial s
      → (i j : ℕ) → i < n
      → j < n
      → i ≢ j
      → s.globals.curr_writer ≡ some i
      → (granted (s.threads j) ≡ false)
        × (owns (s.threads j).at ≡ 0)
        × ((s.threads j).at ≢ write_level)
        × ((s.threads j).at ≢ unlock_level)
  tls_lock_exclusion {s} h i j hi hj differ writer =
      let (count, placed, range, apart) = Reaches-Safe n h in
      let (idle_owner, no_entry, no_exit) =
        Placed-other n j _ s.globals (s.threads j).at differ writer (placed j hj) in
      (
        elim (Bool-cases (granted (s.threads j))) [
          | inl e ↦ absurd ((apart i j hi hj differ e).1 writer)
          | inr e ↦ e
        ],
        idle_owner,
        no_entry,
        no_exit,
      )

  -- In every state that the threads reach, `n_writers_` is the number of threads that are counted in
  -- it and of the levels of reentry, and it is at least 1 while a thread is counted.
  pub tls_lock_counters :
      {s : InterruptableTlsRwLock}
      → Reaches n initial s
      → (j : ℕ) → j < n
      → (s.globals.n_writers ≡ total writers_of s.threads n + s.globals.write_reentry_level)
        × (writers (s.threads j).at ≤ s.globals.n_writers)
  tls_lock_counters {s} h j hj =
      let (count, placed, range, apart) = Reaches-Safe n h in
      (count.0, omega (arith, count.0, weight-le writers_of s.threads j n hj))

  -- The counter that `ReadLock` takes back is 1.
  read_dec-reads :
      {s : InterruptableTlsRwLock}
      → Reaches n initial s
      → (j : ℕ) → j < n
      → (s.threads j).at ≡ read_dec
      → (s.threads j).reads ≡ 1
  read_dec-reads {s} h j hj e =
      (subst (λ p. Placed n j p (s.threads j).reads s.globals) e ((Reaches-Safe n h).1 j hj)).0

  -- The level that `WriteUnlock` takes back is at least 1.
  unlock_level-level :
      {s : InterruptableTlsRwLock}
      → Reaches n initial s
      → (j : ℕ) → j < n
      → (s.threads j).at ≡ unlock_level
      → 1 ≤ s.globals.write_reentry_level
  unlock_level-level {s} h j hj e =
      (subst (λ p. Placed n j p (s.threads j).reads s.globals) e ((Reaches-Safe n h).1 j hj)).1

  -- In every state that the threads reach by operations that take effect in one order, an operation that
  -- ends a call with success leaves its thread in no call and with what it asked for: an operation of `ReadLock` with a lock for reading,
  -- and one of `WriteLock` as the writer, at a level of at least 1.
  pub tls_lock_success :
      {s : InterruptableTlsRwLock} {q : Place} {r : ℕ} {g : Globals} {ret : Option LockStatus}
      → Reaches n initial s
      → (t : ℕ) → t < n
      → Act n t s.threads (s.threads t).at q (s.threads t).reads r s.globals g ret
      → ret ≡ some success
      → (q ≡ idle)
        × (((method (s.threads t).at ≡ read_lock) × (granted (local q r) ≡ true))
            ⊎ ((method (s.threads t).at ≡ write_lock)
                × (g.curr_writer ≡ some t)
                × (0 < g.write_reentry_level)))
  tls_lock_success {s} h t ht act ok = Act-success act ((Reaches-Safe n h).1 t ht) ok
