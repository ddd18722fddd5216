-- ===== src/SpinLock.antt =====
-- fma-common/rw_lock.h, class `SpinningRWLock`. A step is one atomic operation of one thread; where a
-- thread stands in its call is its `Place`. The threads are the numbers below `n`.
pub mod Exclusion
mod Tests
use fma_common.Common.Threads.{put}
use fma_common.Common.{ℕ, suc, ◌+◌, ◌-◌, ◌%◌, ◌^◌, ◌<◌, ◌≡◌, Bool, true, false, ◌==◌, if◌then◌else◌}

pub data Place : Type 0 where
  idle : Place
  read_begin : Place
  read_check : Place
  read_undo : Place
  read_spin : Place
  reading : Place
  write_begin : Place
  write_drain : Place
  write_held : Place

-- The two members, and the threads.
pub record SpinningRwLock : Type 0 where
  pub n_readers : ℕ
  pub writing : Bool
  pub at : ℕ → Place

abbrev pub size_mod : ℕ
size_mod = 2 ^ 64

-- One atomic operation: the places before and after, and the members before and after.
pub data Act : Place → Place → ℕ → Bool → ℕ → Bool → Type 0 where
  read_call : {r : ℕ} {w : Bool} → Act idle read_begin r w r w
  read_enter : {r : ℕ} {w : Bool} → Act read_begin read_check r w ((r + 1) % size_mod) w
  read_granted : {r : ℕ} → Act read_check reading r false r false
  read_denied : {r : ℕ} → Act read_check read_undo r true r true
  read_undone : {r : ℕ} {w : Bool} → Act read_undo read_spin r w ((r + size_mod - 1) % size_mod) w
  read_spins : {r : ℕ} → Act read_spin read_spin r true r true
  read_retry : {r : ℕ} → Act read_spin read_begin r false r false
  read_unlock : {r : ℕ} {w : Bool} → Act reading idle r w ((r + size_mod - 1) % size_mod) w
  write_call : {r : ℕ} {w : Bool} → Act idle write_begin r w r w
  write_spins : {r : ℕ} → Act write_begin write_begin r true r true
  write_taken : {r : ℕ} → Act write_begin write_drain r false r true
  write_waits : {r : ℕ} {w : Bool} → Act write_drain write_drain (suc r) w (suc r) w
  write_drained : {w : Bool} → Act write_drain write_held 0 w 0 w
  write_unlock : {r : ℕ} {w : Bool} → Act write_held idle r w r false

pub data Step (n : ℕ) : SpinningRwLock → SpinningRwLock → Type 0 where
  step :
      {s : SpinningRwLock} {to : Place} {r : ℕ} {w : Bool} (i : ℕ)
      → i < n
      → Act (s.at i) to s.n_readers s.writing r w
      → Step n s (record { n_readers = r; writing = w; at = put s.at i to })

pub initial : SpinningRwLock
initial = record { n_readers = 0; writing = false; at = λ _. idle }

pub data Reaches (n : ℕ) : SpinningRwLock → Type 0 where
  start : Reaches n initial
  next : {s t : SpinningRwLock} → Reaches n s → Step n s t → Reaches n t
