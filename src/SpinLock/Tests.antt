-- ===== src/SpinLock/Tests.antt =====
-- Runs of the `SpinningRWLock` (fma-common/rw_lock.h).
use fma_common.Common.{ℕ, ◌≡◌, ◌≢◌, refl, true, arith}
use fma_common.Common.Threads.{put}
use fma_common.SpinLock.{
  SpinningRwLock, initial, Place, idle, reading, write_held, write_begin, write_drain, write_call,
  write_taken, write_drained, step, Reaches, start, next,
}
use fma_common.SpinLock.Exclusion.{spin_lock_exclusion}

abbrev place_demo : Place → ℕ → Place
place_demo p = put (λ _. idle) 0 p

abbrev writer_demo : SpinningRwLock
writer_demo = record {
  n_readers = 0;
  writing = true;
  at = put (put (put (λ _. idle) 0 write_begin) 0 write_drain) 0 write_held;
}

-- The thread 0 of two takes the lock for writing.
demo-Reaches : Reaches 2 writer_demo
unfolding initial put
demo-Reaches =
    next (next (next start (step 0 (omega arith) write_call)) (step 0 (omega arith) write_taken))
      (step 0 (omega arith) write_drained)

writer_demo-at : writer_demo.at 0 ≡ write_held
unfolding put
writer_demo-at = refl

spin_lock_exclusion_example :
    (writer_demo.at 1 ≢ reading) × (writer_demo.at 1 ≡ write_held → ◌≡◌ {A = ℕ} 0 1)
spin_lock_exclusion_example =
    spin_lock_exclusion 2 (omega arith) demo-Reaches 0 1 (omega arith) (omega arith) writer_demo-at
