-- ===== src/TlsLock/Tests.antt =====
-- Runs of the `InterruptableTLSRWLock` (fma-common/rw_lock.h).
use fma_common.Common.{◌⊎◌, ℕ, ◌+◌, ◌≤◌, ◌<◌, ◌≡◌, ◌≢◌, refl, true, false, none, some, arith}
use fma_common.Common.Threads.{put, total}
use fma_common.TlsLock.{
  InterruptableTlsRwLock, Globals, local, success, initial, Place, idle, write_inc, write_scan,
  write_store, write_enter, write_level, unlock_level, write_call, write_first, scan_self,
  scan_free, scan_end, write_publish, write_locked, step, Reaches, here, next,
}
use fma_common.TlsLock.Invariant.{granted, owns, writers, method, read_lock, write_lock}
use fma_common.TlsLock.Safe.{writers_of}
use fma_common.TlsLock.Exclusion.{tls_lock_exclusion, tls_lock_counters, tls_lock_success}

-- Of two threads that are idle, thread 0 moves to the place.
abbrev entering : Globals → Place → InterruptableTlsRwLock → InterruptableTlsRwLock
entering g p s = record { globals = g; threads = put s.threads 0 (local p 0) }

abbrev members : ℕ → Globals
members level = record { n_writers = 1; curr_writer = some 0; write_reentry_level = level }

abbrev taken : Globals
taken = record { n_writers = 1; curr_writer = none; write_reentry_level = 0 }

abbrev before_demo : InterruptableTlsRwLock
before_demo = entering (members 0) write_enter (
    entering taken write_store (
      entering taken (write_scan 2) (
        entering taken (write_scan 1)
          (entering taken (write_scan 0) (entering (initial.globals) write_inc initial)))))

abbrev writer_demo : InterruptableTlsRwLock
writer_demo = entering (members 1) idle before_demo

-- Thread 0 of two takes the lock for writing.
before-Reaches : Reaches 2 initial before_demo
unfolding initial put
before-Reaches =
    let zero_in : ◌<◌ 0 2 = omega arith in
    let a : Reaches 2 initial _ = next here (step 0 zero_in write_call) in
    let b = next a (step 0 zero_in (write_first refl)) in
    let c = next b (step 0 zero_in (scan_self (omega arith) refl)) in
    let d = next c (step 0 zero_in (scan_free (omega arith) (λ e. ground (arith, e)) refl)) in
    let e = next d (step 0 zero_in (scan_end refl)) in next e (step 0 zero_in write_publish)

before_demo-at : before_demo.threads 0 ≡ local write_enter 0
unfolding put
before_demo-at = refl

writer-Reaches : Reaches 2 initial writer_demo
unfolding initial put
writer-Reaches = next before-Reaches (step 0 (omega arith) write_locked)

demo_differ : ◌≢◌ {A = ℕ} 0 1
demo_differ e = ground (arith, e)

tls_lock_exclusion_example :
    (granted (writer_demo.threads 1) ≡ false)
    × (owns (writer_demo.threads 1).at ≡ 0)
    × ((writer_demo.threads 1).at ≢ write_level)
    × ((writer_demo.threads 1).at ≢ unlock_level)
tls_lock_exclusion_example =
    tls_lock_exclusion 2 writer-Reaches 0 1 (omega arith) (omega arith) demo_differ refl

tls_lock_counters_example :
    (◌≡◌ {A = ℕ} 1 (total writers_of writer_demo.threads 2 + 1))
    × (writers (writer_demo.threads 0).at ≤ 1)
tls_lock_counters_example = tls_lock_counters 2 writer-Reaches 0 (omega arith)

tls_lock_success_example :
    (idle ≡ idle)
    × (((method (before_demo.threads 0).at ≡ read_lock) × (granted (local idle 0) ≡ true))
        ⊎ ((method (before_demo.threads 0).at ≡ write_lock)
            × ((members 1).curr_writer ≡ some 0)
            × ◌<◌ 0 1))
tls_lock_success_example =
    tls_lock_success 2 {q = idle} {r = 0} {g = members 1} {ret = some success} before-Reaches 0
      (omega arith) (rw before_demo-at write_locked) refl
