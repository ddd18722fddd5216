-- ===== src/TlsLock/Invariant.antt =====
-- The invariant of `InterruptableTLSRWLock` (fma-common/rw_lock.h): what the counters add up to, what a
-- place says of the members, and which threads a writer knows not to read.
use fma_common.Common.{ℕ, ◌+◌, ◌≤◌, ◌<◌, ◌≡◌, ◌≢◌, ◌⊎◌, none, some, Bool, true, false, ltb, arith}
use fma_common.TlsLock.{
  Place, idle, read_inc, read_check, read_check_writer, read_dec, read_wait, write_inc,
  write_check_writer, write_level, write_dec, write_upgrade, write_wait, write_scan, write_rollback,
  write_store, write_enter, unlock_level, unlock_store, unlock_dec, Local, local, Globals,
}

-- The threads that are counted in `n_writers_`, beside the levels of reentry.
abbrev pub writers : Place → ℕ
writers (write_scan k) = 1
writers write_rollback = 1
writers write_store = 1
writers write_enter = 1
writers write_check_writer = 1
writers write_level = 1
writers write_dec = 1
writers unlock_store = 1
writers unlock_dec = 1
writers _ = 0

pub data Method : Type 0 where
  no_method read_lock write_lock write_unlock : Method

-- The method that a thread at the place is in.
abbrev pub method : Place → Method
method idle = no_method
method read_inc = read_lock
method read_check = read_lock
method read_check_writer = read_lock
method read_dec = read_lock
method read_wait = read_lock
method unlock_level = write_unlock
method unlock_store = write_unlock
method unlock_dec = write_unlock
method _ = write_lock

-- Of the counted ones those that have the lock to themselves while the level is 0.
abbrev pub owns : Place → ℕ
owns (write_scan k) = 1
owns write_rollback = 1
owns write_store = 1
owns write_enter = 1
owns unlock_store = 1
owns _ = 0

abbrev pub Counted : ℕ → ℕ → Globals → Type 0
Counted c o g =
    (g.n_writers ≡ c + g.write_reentry_level) × (o ≤ 1) × ((o ≡ 0) ⊎ (g.write_reentry_level ≡ 0))

-- What the place of thread `t` says of its counter and of the members.
abbrev pub Placed : ℕ → ℕ → Place → ℕ → Globals → Type 0
Placed n t read_check r g = (r ≡ 1) × (g.curr_writer ≡ some t → 0 < g.write_reentry_level)
Placed n t read_check_writer r g = (r ≡ 1) × (g.curr_writer ≡ some t → 0 < g.write_reentry_level)
Placed n t read_dec r g = (r ≡ 1) × (g.curr_writer ≡ some t → 0 < g.write_reentry_level)
Placed n t (write_scan k) r g = (g.curr_writer ≡ none) × (k ≤ n)
Placed n t write_rollback r g = g.curr_writer ≡ none
Placed n t write_store r g = g.curr_writer ≡ none
Placed n t write_enter r g = g.curr_writer ≡ some t
Placed n t unlock_store r g = g.curr_writer ≡ some t
Placed n t write_level r g = (g.curr_writer ≡ some t) × (0 < g.write_reentry_level)
Placed n t unlock_level r g = (g.curr_writer ≡ some t) × (0 < g.write_reentry_level)
Placed n t _ r g = g.curr_writer ≡ some t → 0 < g.write_reentry_level

-- What an operation of thread `t`, which owns `o` times, may do to the members.
abbrev pub Change : ℕ → ℕ → Globals → Globals → Type 0
Change t o g g' =
    ((g'.curr_writer ≡ g.curr_writer) × (g.write_reentry_level ≤ g'.write_reentry_level))
    ⊎ (((o ≡ 1) × (g.curr_writer ≡ none) × (g'.curr_writer ≡ some t))
        ⊎ ((g.curr_writer ≡ some t) × ((g'.curr_writer ≡ none) ⊎ (g'.curr_writer ≡ g.curr_writer))))

-- Whether a thread that is not inside of `ReadLock` holds a lock for reading.
abbrev pub granted : Local → Bool
granted m = granted_at m.at m.reads
  where
    granted_at : Place → ℕ → Bool
    granted_at read_check r = false
    granted_at read_check_writer r = false
    granted_at read_dec r = false
    granted_at _ r = ltb 0 r

-- Whether a writer at this place found thread `j` without a lock.
abbrev pub past : Place → ℕ → Bool
past (write_scan k) j = ltb j k
past write_store j = true
past _ j = false

-- The operations of another thread keep what a place says.
pub Placed-Change :
    {t j : ℕ} (n r : ℕ) (g g' : Globals) {o : ℕ} (p : Place)
    → t ≢ j
    → o + owns p ≤ 1
    → Change t o g g'
    → Placed n j p r g
    → Placed n j p r g'
Placed-Change n r g g' idle differ one change at = ground arith
Placed-Change n r g g' read_inc differ one change at = ground arith
Placed-Change n r g g' read_check differ one change at = ground arith
Placed-Change n r g g' read_check_writer differ one change at = ground arith
Placed-Change n r g g' read_dec differ one change at = ground arith
Placed-Change n r g g' read_wait differ one change at = ground arith
Placed-Change n r g g' write_inc differ one change at = ground arith
Placed-Change n r g g' write_check_writer differ one change at = ground arith
Placed-Change n r g g' write_level differ one change at = ground arith
Placed-Change n r g g' write_dec differ one change at = ground arith
Placed-Change n r g g' write_upgrade differ one change at = ground arith
Placed-Change n r g g' write_wait differ one change at = ground arith
Placed-Change n r g g' (write_scan k) differ one change at = ground arith
Placed-Change n r g g' write_rollback differ one change at = ground arith
Placed-Change n r g g' write_store differ one change at = ground arith
Placed-Change n r g g' write_enter differ one change at = ground arith
Placed-Change n r g g' unlock_level differ one change at = ground arith
Placed-Change n r g g' unlock_store differ one change at = ground arith
Placed-Change n r g g' unlock_dec differ one change at = ground arith

pub Change-owner :
    {t j o : ℕ} (g g' : Globals)
    → t ≢ j
    → Change t o g g'
    → g'.curr_writer ≡ some j
    → g.curr_writer ≡ some j
Change-owner g g' differ change e = ground arith

-- A thread that the members name as the writer is counted.
pub Placed-counted :
    (n t r : ℕ) (g : Globals) (p : Place)
    → Placed n t p r g
    → g.curr_writer ≡ some t
    → 0 < writers p + g.write_reentry_level
Placed-counted n t r g idle at e = ground arith
Placed-counted n t r g read_inc at e = ground arith
Placed-counted n t r g read_check at e = ground arith
Placed-counted n t r g read_check_writer at e = ground arith
Placed-counted n t r g read_dec at e = ground arith
Placed-counted n t r g read_wait at e = ground arith
Placed-counted n t r g write_inc at e = ground arith
Placed-counted n t r g write_check_writer at e = ground arith
Placed-counted n t r g write_level at e = ground arith
Placed-counted n t r g write_dec at e = ground arith
Placed-counted n t r g write_upgrade at e = ground arith
Placed-counted n t r g write_wait at e = ground arith
Placed-counted n t r g (write_scan k) at e = ground arith
Placed-counted n t r g write_rollback at e = ground arith
Placed-counted n t r g write_store at e = ground arith
Placed-counted n t r g write_enter at e = ground arith
Placed-counted n t r g unlock_level at e = ground arith
Placed-counted n t r g unlock_store at e = ground arith
Placed-counted n t r g unlock_dec at e = ground arith

pub Placed-past :
    (n t r j : ℕ) (g : Globals) (p : Place)
    → Placed n t p r g
    → past p j ≡ true
    → (g.curr_writer ≡ none) × (0 < writers p)
Placed-past n t r j g idle at e = ground arith
Placed-past n t r j g read_inc at e = ground arith
Placed-past n t r j g read_check at e = ground arith
Placed-past n t r j g read_check_writer at e = ground arith
Placed-past n t r j g read_dec at e = ground arith
Placed-past n t r j g read_wait at e = ground arith
Placed-past n t r j g write_inc at e = ground arith
Placed-past n t r j g write_check_writer at e = ground arith
Placed-past n t r j g write_level at e = ground arith
Placed-past n t r j g write_dec at e = ground arith
Placed-past n t r j g write_upgrade at e = ground arith
Placed-past n t r j g write_wait at e = ground arith
Placed-past n t r j g (write_scan k) at e = ground arith
Placed-past n t r j g write_rollback at e = ground arith
Placed-past n t r j g write_store at e = ground arith
Placed-past n t r j g write_enter at e = ground arith
Placed-past n t r j g unlock_level at e = ground arith
Placed-past n t r j g unlock_store at e = ground arith
Placed-past n t r j g unlock_dec at e = ground arith

pub granted-reads : (p : Place) (r : ℕ) → granted (local p r) ≡ true → 0 < r
granted-reads idle r e = ground arith
granted-reads read_inc r e = ground arith
granted-reads read_check r e = ground arith
granted-reads read_check_writer r e = ground arith
granted-reads read_dec r e = ground arith
granted-reads read_wait r e = ground arith
granted-reads write_inc r e = ground arith
granted-reads write_check_writer r e = ground arith
granted-reads write_level r e = ground arith
granted-reads write_dec r e = ground arith
granted-reads write_upgrade r e = ground arith
granted-reads write_wait r e = ground arith
granted-reads (write_scan k) r e = ground arith
granted-reads write_rollback r e = ground arith
granted-reads write_store r e = ground arith
granted-reads write_enter r e = ground arith
granted-reads unlock_level r e = ground arith
granted-reads unlock_store r e = ground arith
granted-reads unlock_dec r e = ground arith

pub owns-le : (p : Place) → owns p ≤ writers p
owns-le idle = omega arith
owns-le read_inc = omega arith
owns-le read_check = omega arith
owns-le read_check_writer = omega arith
owns-le read_dec = omega arith
owns-le read_wait = omega arith
owns-le write_inc = omega arith
owns-le write_check_writer = omega arith
owns-le write_level = omega arith
owns-le write_dec = omega arith
owns-le write_upgrade = omega arith
owns-le write_wait = omega arith
owns-le (write_scan k) = omega arith
owns-le write_rollback = omega arith
owns-le write_store = omega arith
owns-le write_enter = omega arith
owns-le unlock_level = omega arith
owns-le unlock_store = omega arith
owns-le unlock_dec = omega arith

-- No place that only the writer, or the one to be, stands at is another thread's.
pub Placed-other :
    {i : ℕ} (n j r : ℕ) (g : Globals) (p : Place)
    → i ≢ j
    → g.curr_writer ≡ some i
    → Placed n j p r g
    → (owns p ≡ 0) × (p ≢ write_level) × (p ≢ unlock_level)
Placed-other n j r g idle differ e at = ground arith
Placed-other n j r g read_inc differ e at = ground arith
Placed-other n j r g read_check differ e at = ground arith
Placed-other n j r g read_check_writer differ e at = ground arith
Placed-other n j r g read_dec differ e at = ground arith
Placed-other n j r g read_wait differ e at = ground arith
Placed-other n j r g write_inc differ e at = ground arith
Placed-other n j r g write_check_writer differ e at = ground arith
Placed-other n j r g write_level differ e at = ground arith
Placed-other n j r g write_dec differ e at = ground arith
Placed-other n j r g write_upgrade differ e at = ground arith
Placed-other n j r g write_wait differ e at = ground arith
Placed-other n j r g (write_scan k) differ e at = ground arith
Placed-other n j r g write_rollback differ e at = ground arith
Placed-other n j r g write_store differ e at = ground arith
Placed-other n j r g write_enter differ e at = ground arith
Placed-other n j r g unlock_level differ e at = ground arith
Placed-other n j r g unlock_store differ e at = ground arith
Placed-other n j r g unlock_dec differ e at = ground arith
