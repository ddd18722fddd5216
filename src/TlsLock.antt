-- ===== src/TlsLock.antt =====
-- fma-common/rw_lock.h, class `InterruptableTLSRWLock`, for the threads below `n`, which is the size of
-- `reader_locks_`. A step is one atomic operation of one thread, and a thread's `Place` says which it
-- does next. The steps interleave: the atomic operations take effect in one order, as under
-- sequential consistency. The orders that fma-common/atomic_ops.h asks for, acquire and release, do not
-- promise this, and what is proved of the lock is of such executions only. The counters are exact: fewer than 2 ^ 63 locks are nested. A thread unlocks
-- only what it holds.
pub mod Invariant
pub mod Steps
pub mod Safe
pub mod Exclusion
pub mod Progress
mod Tests
use fma_common.Common.Threads.{put}
use fma_common.Common.{ℕ, zero, suc, ◌+◌, ◌-◌, ◌<◌, ◌≡◌, ◌≢◌, Option, none, some}

pub data LockStatus : Type 0 where
  success interrupted upgrade_failed : LockStatus

pub data Place : Type 0 where
  idle : Place
  read_inc read_check read_check_writer read_dec read_wait : Place
  write_inc write_check_writer write_level write_dec write_upgrade write_wait : Place
  write_scan : ℕ → Place
  write_rollback write_store write_enter : Place
  unlock_level unlock_store unlock_dec : Place

-- A thread: its place, and its counter in `reader_locks_`.
pub record Local : Type 0 where
  pub at : Place
  pub reads : ℕ

abbrev pub local : Place → ℕ → Local
local p r = record { at = p; reads = r }

-- The shared members; `none` is the writer -1.
pub record Globals : Type 0 where
  pub n_writers : ℕ
  pub curr_writer : Option ℕ
  pub write_reentry_level : ℕ

-- One operation of thread `t`, by the methods: the places before and after, its counter before and
-- after, the members before and after, and the status that the call returns, if it does.
pub data Act (n t : ℕ) (threads : ℕ → Local)
    : Place → Place → ℕ → ℕ → Globals → Globals → Option LockStatus → Type 0 where
  -- ReadLock
  read_call : {r : ℕ} {g : Globals} → Act n t threads idle read_inc r r g g none
  read_reenter :
      {r : ℕ} {g : Globals} → 0 < r → Act n t threads read_inc idle r (suc r) g g (some success)
  read_first :
      {r : ℕ} {g : Globals} → r ≡ 0 → Act n t threads read_inc read_check r (suc r) g g none
  read_free :
      {r : ℕ} {g : Globals}
      → g.n_writers ≡ 0
      → Act n t threads read_check idle r r g g (some success)
  read_blocked :
      {r : ℕ} {g : Globals}
      → g.n_writers ≢ 0
      → Act n t threads read_check read_check_writer r r g g none
  read_own :
      {r : ℕ} {g : Globals}
      → g.curr_writer ≡ some t
      → Act n t threads read_check_writer idle r r g g (some success)
  read_other :
      {r : ℕ} {g : Globals}
      → g.curr_writer ≢ some t
      → Act n t threads read_check_writer read_dec r r g g none
  read_back : {r : ℕ} {g : Globals} → Act n t threads read_dec read_wait r (r - 1) g g none
  read_spin :
      {r : ℕ} {g : Globals} → g.n_writers ≢ 0 → Act n t threads read_wait read_wait r r g g none
  read_interrupted :
      {r : ℕ} {g : Globals}
      → g.n_writers ≢ 0
      → Act n t threads read_wait idle r r g g (some interrupted)
  read_retry :
      {r : ℕ} {g : Globals} → g.n_writers ≡ 0 → Act n t threads read_wait read_inc r r g g none
  -- ReadUnlock
  read_unlock : {r : ℕ} {g : Globals} → 0 < r → Act n t threads idle idle r (r - 1) g g none
  -- WriteLock
  write_call : {r : ℕ} {g : Globals} → Act n t threads idle write_inc r r g g none
  write_first :
      {r : ℕ} {g : Globals}
      → g.n_writers ≡ 0
      → Act n t threads write_inc
          (write_scan 0)
          r
          r
          g
          (record g { n_writers = suc g.n_writers })
          none
  write_later :
      {r : ℕ} {g : Globals}
      → g.n_writers ≢ 0
      → Act n t threads write_inc write_check_writer r r g
          (record g { n_writers = suc g.n_writers })
          none
  write_own :
      {r : ℕ} {g : Globals}
      → g.curr_writer ≡ some t
      → Act n t threads write_check_writer write_level r r g g none
  write_other :
      {r : ℕ} {g : Globals}
      → g.curr_writer ≢ some t
      → Act n t threads write_check_writer write_dec r r g g none
  write_reenter :
      {r : ℕ} {g : Globals}
      → Act n t threads write_level idle r r g
          (record g { write_reentry_level = suc g.write_reentry_level })
          (some success)
  write_back :
      {r : ℕ} {g : Globals}
      → Act n t threads write_dec write_upgrade r r g
          (record g { n_writers = g.n_writers - 1 })
          none
  write_refused :
      {r : ℕ} {g : Globals}
      → 0 < r
      → Act n t threads write_upgrade idle r r g g (some upgrade_failed)
  write_queue :
      {r : ℕ} {g : Globals} → r ≡ 0 → Act n t threads write_upgrade write_wait r r g g none
  write_spin :
      {r : ℕ} {g : Globals} → g.n_writers ≢ 0 → Act n t threads write_wait write_wait r r g g none
  write_interrupted :
      {r : ℕ} {g : Globals}
      → g.n_writers ≢ 0
      → Act n t threads write_wait idle r r g g (some interrupted)
  write_retry :
      {r : ℕ} {g : Globals} → g.n_writers ≡ 0 → Act n t threads write_wait write_inc r r g g none
  scan_self :
      {k r : ℕ} {g : Globals}
      → k < n
      → k ≡ t
      → Act n t threads (write_scan k) (write_scan (suc k)) r r g g none
  scan_free :
      {k r : ℕ} {g : Globals}
      → k < n
      → k ≢ t
      → (threads k).reads ≡ 0
      → Act n t threads (write_scan k) (write_scan (suc k)) r r g g none
  scan_spin :
      {k r : ℕ} {g : Globals}
      → k < n
      → k ≢ t
      → (threads k).reads ≢ 0
      → Act n t threads (write_scan k) (write_scan k) r r g g none
  scan_interrupted :
      {k r : ℕ} {g : Globals}
      → k < n
      → k ≢ t
      → (threads k).reads ≢ 0
      → Act n t threads (write_scan k) write_rollback r r g g none
  scan_end :
      {k r : ℕ} {g : Globals} → k ≡ n → Act n t threads (write_scan k) write_store r r g g none
  write_undone :
      {r : ℕ} {g : Globals}
      → Act n t threads write_rollback idle r r g
          (record g { n_writers = g.n_writers - 1 })
          (some interrupted)
  write_publish :
      {r : ℕ} {g : Globals}
      → Act n t threads write_store write_enter r r g (record g { curr_writer = some t }) none
  write_locked :
      {r : ℕ} {g : Globals}
      → Act n t threads write_enter idle r r g
          (record g { write_reentry_level = suc g.write_reentry_level })
          (some success)
  -- WriteUnlock
  write_unlock :
      {r : ℕ} {g : Globals}
      → g.curr_writer ≡ some t
      → Act n t threads idle unlock_level r r g g none
  unlock_last :
      {r : ℕ} {g : Globals}
      → g.write_reentry_level ≡ 1
      → Act n t threads unlock_level unlock_store r r g
          (record g { write_reentry_level = g.write_reentry_level - 1 })
          none
  unlock_inner :
      {r : ℕ} {g : Globals}
      → g.write_reentry_level ≢ 1
      → Act n t threads unlock_level unlock_dec r r g
          (record g { write_reentry_level = g.write_reentry_level - 1 })
          none
  unlock_publish :
      {r : ℕ} {g : Globals}
      → Act n t threads unlock_store unlock_dec r r g (record g { curr_writer = none }) none
  unlock_done :
      {r : ℕ} {g : Globals}
      → Act n t threads unlock_dec idle r r g (record g { n_writers = g.n_writers - 1 }) none

pub record InterruptableTlsRwLock : Type 0 where
  pub globals : Globals
  pub threads : ℕ → Local

pub data Step (n : ℕ) : InterruptableTlsRwLock → InterruptableTlsRwLock → Type 0 where
  step :
      {s : InterruptableTlsRwLock} {to : Place} {r : ℕ} {g : Globals} {ret : Option LockStatus}
      (t : ℕ)
      → t < n
      → Act n t s.threads (s.threads t).at to (s.threads t).reads r s.globals g ret
      → Step n s (record { globals = g; threads = put s.threads t (local to r) })

pub initial : InterruptableTlsRwLock
initial = record {
  globals = record { n_writers = 0; curr_writer = none; write_reentry_level = 0 };
  threads = λ _. local idle 0;
}

pub data Reaches (n : ℕ) (s : InterruptableTlsRwLock) : InterruptableTlsRwLock → Type 0 where
  here : Reaches n s s
  next : {t u : InterruptableTlsRwLock} → Reaches n s t → Step n t u → Reaches n s u
