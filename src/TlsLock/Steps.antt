-- ===== src/TlsLock/Steps.antt =====
-- What one operation of `InterruptableTLSRWLock` (fma-common/rw_lock.h) does to the thread's own part of
-- the invariant, to the counters, and to what the other threads see.
use fma_common.Common.{ℕ, ◌+◌, ◌≤◌, ◌<◌, ◌≡◌, ◌≢◌, ◌⊎◌, Option, none, some, arith, true}
use fma_common.TlsLock.{
  LockStatus, success, Place, idle, Local, local, Globals, Act, read_call, read_reenter, read_first,
  read_free, read_blocked, read_own, read_other, read_back, read_spin, read_interrupted, read_retry,
  read_unlock, write_call, write_first, write_later, write_own, write_other, write_reenter,
  write_back, write_refused, write_queue, write_spin, write_interrupted, write_retry, scan_self,
  scan_free, scan_spin, scan_interrupted, scan_end, write_undone, write_publish, write_locked,
  write_unlock, unlock_last, unlock_inner, unlock_publish, unlock_done,
}
use fma_common.TlsLock.Invariant.{
  writers, owns, Placed, Counted, Change, granted, past, method, read_lock, write_lock,
}

module _ {n t : ℕ} {threads : ℕ → Local} where
  pub Act-Counted :
      {p q : Place} {r r' : ℕ} {g g' : Globals} {ret : Option LockStatus} (c c' o o' : ℕ)
      → Act n t threads p q r r' g g' ret
      → c' + writers p ≡ c + writers q
      → o' + owns p ≡ o + owns q
      → (writers p ≤ c) × (o ≤ c)
      → Placed n t p r g
      → Counted c o g
      → Counted c' o' g'
  Act-Counted c c' o o' read_call ec eo le at k = ground arith
  Act-Counted c c' o o' (read_reenter h) ec eo le at k = ground arith
  Act-Counted c c' o o' (read_first h) ec eo le at k = ground arith
  Act-Counted c c' o o' (read_free h) ec eo le at k = ground arith
  Act-Counted c c' o o' (read_blocked h) ec eo le at k = ground arith
  Act-Counted c c' o o' (read_own h) ec eo le at k = ground arith
  Act-Counted c c' o o' (read_other h) ec eo le at k = ground arith
  Act-Counted c c' o o' read_back ec eo le at k = ground arith
  Act-Counted c c' o o' (read_spin h) ec eo le at k = ground arith
  Act-Counted c c' o o' (read_interrupted h) ec eo le at k = ground arith
  Act-Counted c c' o o' (read_retry h) ec eo le at k = ground arith
  Act-Counted c c' o o' (read_unlock h) ec eo le at k = ground arith
  Act-Counted c c' o o' write_call ec eo le at k = ground arith
  Act-Counted c c' o o' (write_first h) ec eo le at k = ground arith
  Act-Counted c c' o o' (write_later h) ec eo le at k = ground arith
  Act-Counted c c' o o' (write_own h) ec eo le at k = ground arith
  Act-Counted c c' o o' (write_other h) ec eo le at k = ground arith
  Act-Counted c c' o o' write_reenter ec eo le at k = ground arith
  Act-Counted c c' o o' write_back ec eo le at k = ground arith
  Act-Counted c c' o o' (write_refused h) ec eo le at k = ground arith
  Act-Counted c c' o o' (write_queue h) ec eo le at k = ground arith
  Act-Counted c c' o o' (write_spin h) ec eo le at k = ground arith
  Act-Counted c c' o o' (write_interrupted h) ec eo le at k = ground arith
  Act-Counted c c' o o' (write_retry h) ec eo le at k = ground arith
  Act-Counted c c' o o' (scan_self h h1) ec eo le at k = ground arith
  Act-Counted c c' o o' (scan_free h h1 h2) ec eo le at k = ground arith
  Act-Counted c c' o o' (scan_spin h h1 h2) ec eo le at k = ground arith
  Act-Counted c c' o o' (scan_interrupted h h1 h2) ec eo le at k = ground arith
  Act-Counted c c' o o' (scan_end h) ec eo le at k = ground arith
  Act-Counted c c' o o' write_undone ec eo le at k = ground arith
  Act-Counted c c' o o' write_publish ec eo le at k = ground arith
  Act-Counted c c' o o' write_locked ec eo le at k = ground arith
  Act-Counted c c' o o' (write_unlock h) ec eo le at k = ground arith
  Act-Counted c c' o o' (unlock_last h) ec eo le at k = ground arith
  Act-Counted c c' o o' (unlock_inner h) ec eo le at k = ground arith
  Act-Counted c c' o o' unlock_publish ec eo le at k = ground arith
  Act-Counted c c' o o' unlock_done ec eo le at k = ground arith

  -- What it leaves of the place's condition; a first writer finds no writer.
  pub Act-Placed :
      {p q : Place} {r r' : ℕ} {g g' : Globals} {ret : Option LockStatus}
      → Act n t threads p q r r' g g' ret
      → (g.n_writers ≡ 0 → g.curr_writer ≡ none)
      → Placed n t p r g
      → Placed n t q r' g'
  Act-Placed read_call free at = ground arith
  Act-Placed (read_reenter h) free at = ground arith
  Act-Placed (read_first h) free at = ground arith
  Act-Placed (read_free h) free at = ground arith
  Act-Placed (read_blocked h) free at = ground arith
  Act-Placed (read_own h) free at = ground arith
  Act-Placed (read_other h) free at = ground arith
  Act-Placed read_back free at = ground arith
  Act-Placed (read_spin h) free at = ground arith
  Act-Placed (read_interrupted h) free at = ground arith
  Act-Placed (read_retry h) free at = ground arith
  Act-Placed (read_unlock h) free at = ground arith
  Act-Placed write_call free at = ground arith
  Act-Placed (write_first h) free at = ground arith
  Act-Placed (write_later h) free at = ground arith
  Act-Placed (write_own h) free at = ground arith
  Act-Placed (write_other h) free at = ground arith
  Act-Placed write_reenter free at = ground arith
  Act-Placed write_back free at = ground arith
  Act-Placed (write_refused h) free at = ground arith
  Act-Placed (write_queue h) free at = ground arith
  Act-Placed (write_spin h) free at = ground arith
  Act-Placed (write_interrupted h) free at = ground arith
  Act-Placed (write_retry h) free at = ground arith
  Act-Placed (scan_self h h1) free at = ground arith
  Act-Placed (scan_free h h1 h2) free at = ground arith
  Act-Placed (scan_spin h h1 h2) free at = ground arith
  Act-Placed (scan_interrupted h h1 h2) free at = ground arith
  Act-Placed (scan_end h) free at = ground arith
  Act-Placed write_undone free at = ground arith
  Act-Placed write_publish free at = ground arith
  Act-Placed write_locked free at = ground arith
  Act-Placed (write_unlock h) free at = ground arith
  Act-Placed (unlock_last h) free at = ground arith
  Act-Placed (unlock_inner h) free at = ground arith
  Act-Placed unlock_publish free at = ground arith
  Act-Placed unlock_done free at = ground arith

  pub Act-Change :
      {p q : Place} {r r' : ℕ} {g g' : Globals} {ret : Option LockStatus}
      → Act n t threads p q r r' g g' ret
      → Placed n t p r g
      → Change t (owns p) g g'
  Act-Change read_call at = ground arith
  Act-Change (read_reenter h) at = ground arith
  Act-Change (read_first h) at = ground arith
  Act-Change (read_free h) at = ground arith
  Act-Change (read_blocked h) at = ground arith
  Act-Change (read_own h) at = ground arith
  Act-Change (read_other h) at = ground arith
  Act-Change read_back at = ground arith
  Act-Change (read_spin h) at = ground arith
  Act-Change (read_interrupted h) at = ground arith
  Act-Change (read_retry h) at = ground arith
  Act-Change (read_unlock h) at = ground arith
  Act-Change write_call at = ground arith
  Act-Change (write_first h) at = ground arith
  Act-Change (write_later h) at = ground arith
  Act-Change (write_own h) at = ground arith
  Act-Change (write_other h) at = ground arith
  Act-Change write_reenter at = ground arith
  Act-Change write_back at = ground arith
  Act-Change (write_refused h) at = ground arith
  Act-Change (write_queue h) at = ground arith
  Act-Change (write_spin h) at = ground arith
  Act-Change (write_interrupted h) at = ground arith
  Act-Change (write_retry h) at = ground arith
  Act-Change (scan_self h h1) at = ground arith
  Act-Change (scan_free h h1 h2) at = ground arith
  Act-Change (scan_spin h h1 h2) at = ground arith
  Act-Change (scan_interrupted h h1 h2) at = ground arith
  Act-Change (scan_end h) at = ground arith
  Act-Change write_undone at = ground arith
  Act-Change write_publish at = ground arith
  Act-Change write_locked at = ground arith
  Act-Change (write_unlock h) at = ground arith
  Act-Change (unlock_last h) at = ground arith
  Act-Change (unlock_inner h) at = ground arith
  Act-Change unlock_publish at = ground arith
  Act-Change unlock_done at = ground arith

  pub Act-granted :
      {p q : Place} {r r' : ℕ} {g g' : Globals} {ret : Option LockStatus}
      → Act n t threads p q r r' g g' ret
      → Placed n t p r g
      → granted (local q r') ≡ true
      → (granted (local p r) ≡ true) ⊎ ((g.n_writers ≡ 0) ⊎ (g.curr_writer ≡ some t))
  Act-granted read_call at e = ground arith
  Act-granted (read_reenter h) at e = ground arith
  Act-granted (read_first h) at e = ground arith
  Act-granted (read_free h) at e = ground arith
  Act-granted (read_blocked h) at e = ground arith
  Act-granted (read_own h) at e = ground arith
  Act-granted (read_other h) at e = ground arith
  Act-granted read_back at e = ground arith
  Act-granted (read_spin h) at e = ground arith
  Act-granted (read_interrupted h) at e = ground arith
  Act-granted (read_retry h) at e = ground arith
  Act-granted (read_unlock h) at e = ground arith
  Act-granted write_call at e = ground arith
  Act-granted (write_first h) at e = ground arith
  Act-granted (write_later h) at e = ground arith
  Act-granted (write_own h) at e = ground arith
  Act-granted (write_other h) at e = ground arith
  Act-granted write_reenter at e = ground arith
  Act-granted write_back at e = ground arith
  Act-granted (write_refused h) at e = ground arith
  Act-granted (write_queue h) at e = ground arith
  Act-granted (write_spin h) at e = ground arith
  Act-granted (write_interrupted h) at e = ground arith
  Act-granted (write_retry h) at e = ground arith
  Act-granted (scan_self h h1) at e = ground arith
  Act-granted (scan_free h h1 h2) at e = ground arith
  Act-granted (scan_spin h h1 h2) at e = ground arith
  Act-granted (scan_interrupted h h1 h2) at e = ground arith
  Act-granted (scan_end h) at e = ground arith
  Act-granted write_undone at e = ground arith
  Act-granted write_publish at e = ground arith
  Act-granted write_locked at e = ground arith
  Act-granted (write_unlock h) at e = ground arith
  Act-granted (unlock_last h) at e = ground arith
  Act-granted (unlock_inner h) at e = ground arith
  Act-granted unlock_publish at e = ground arith
  Act-granted unlock_done at e = ground arith

  pub Act-past :
      {p q : Place} {r r' : ℕ} {g g' : Globals} {ret : Option LockStatus} (j : ℕ)
      → j < n
      → j ≢ t
      → Act n t threads p q r r' g g' ret
      → past q j ≡ true
      → (past p j ≡ true) ⊎ ((threads j).reads ≡ 0)
  Act-past j inside other read_call e = ground arith
  Act-past j inside other (read_reenter h) e = ground arith
  Act-past j inside other (read_first h) e = ground arith
  Act-past j inside other (read_free h) e = ground arith
  Act-past j inside other (read_blocked h) e = ground arith
  Act-past j inside other (read_own h) e = ground arith
  Act-past j inside other (read_other h) e = ground arith
  Act-past j inside other read_back e = ground arith
  Act-past j inside other (read_spin h) e = ground arith
  Act-past j inside other (read_interrupted h) e = ground arith
  Act-past j inside other (read_retry h) e = ground arith
  Act-past j inside other (read_unlock h) e = ground arith
  Act-past j inside other write_call e = ground arith
  Act-past j inside other (write_first h) e = ground arith
  Act-past j inside other (write_later h) e = ground arith
  Act-past j inside other (write_own h) e = ground arith
  Act-past j inside other (write_other h) e = ground arith
  Act-past j inside other write_reenter e = ground arith
  Act-past j inside other write_back e = ground arith
  Act-past j inside other (write_refused h) e = ground arith
  Act-past j inside other (write_queue h) e = ground arith
  Act-past j inside other (write_spin h) e = ground arith
  Act-past j inside other (write_interrupted h) e = ground arith
  Act-past j inside other (write_retry h) e = ground arith
  Act-past j inside other (scan_self h h1) e = ground arith
  Act-past j inside other (scan_free h h1 h2) e = ground arith
  Act-past j inside other (scan_spin h h1 h2) e = ground arith
  Act-past j inside other (scan_interrupted h h1 h2) e = ground arith
  Act-past j inside other (scan_end h) e = ground arith
  Act-past j inside other write_undone e = ground arith
  Act-past j inside other write_publish e = ground arith
  Act-past j inside other write_locked e = ground arith
  Act-past j inside other (write_unlock h) e = ground arith
  Act-past j inside other (unlock_last h) e = ground arith
  Act-past j inside other (unlock_inner h) e = ground arith
  Act-past j inside other unlock_publish e = ground arith
  Act-past j inside other unlock_done e = ground arith

  -- Only a writer that found every thread without a lock names itself.
  pub Act-owner :
      {p q : Place} {r r' : ℕ} {g g' : Globals} {ret : Option LockStatus} (j : ℕ)
      → Act n t threads p q r r' g g' ret
      → Placed n t p r g
      → g'.curr_writer ≡ some t
      → (g.curr_writer ≡ some t) ⊎ (past p j ≡ true)
  Act-owner j read_call at e = ground arith
  Act-owner j (read_reenter h) at e = ground arith
  Act-owner j (read_first h) at e = ground arith
  Act-owner j (read_free h) at e = ground arith
  Act-owner j (read_blocked h) at e = ground arith
  Act-owner j (read_own h) at e = ground arith
  Act-owner j (read_other h) at e = ground arith
  Act-owner j read_back at e = ground arith
  Act-owner j (read_spin h) at e = ground arith
  Act-owner j (read_interrupted h) at e = ground arith
  Act-owner j (read_retry h) at e = ground arith
  Act-owner j (read_unlock h) at e = ground arith
  Act-owner j write_call at e = ground arith
  Act-owner j (write_first h) at e = ground arith
  Act-owner j (write_later h) at e = ground arith
  Act-owner j (write_own h) at e = ground arith
  Act-owner j (write_other h) at e = ground arith
  Act-owner j write_reenter at e = ground arith
  Act-owner j write_back at e = ground arith
  Act-owner j (write_refused h) at e = ground arith
  Act-owner j (write_queue h) at e = ground arith
  Act-owner j (write_spin h) at e = ground arith
  Act-owner j (write_interrupted h) at e = ground arith
  Act-owner j (write_retry h) at e = ground arith
  Act-owner j (scan_self h h1) at e = ground arith
  Act-owner j (scan_free h h1 h2) at e = ground arith
  Act-owner j (scan_spin h h1 h2) at e = ground arith
  Act-owner j (scan_interrupted h h1 h2) at e = ground arith
  Act-owner j (scan_end h) at e = ground arith
  Act-owner j write_undone at e = ground arith
  Act-owner j write_publish at e = ground arith
  Act-owner j write_locked at e = ground arith
  Act-owner j (write_unlock h) at e = ground arith
  Act-owner j (unlock_last h) at e = ground arith
  Act-owner j (unlock_inner h) at e = ground arith
  Act-owner j unlock_publish at e = ground arith
  Act-owner j unlock_done at e = ground arith

  pub Act-success :
      {p q : Place} {r r' : ℕ} {g g' : Globals} {ret : Option LockStatus}
      → Act n t threads p q r r' g g' ret
      → Placed n t p r g
      → ret ≡ some success
      → (q ≡ idle)
        × (((method p ≡ read_lock) × (granted (local q r') ≡ true))
            ⊎ ((method p ≡ write_lock) × (g'.curr_writer ≡ some t) × (0 < g'.write_reentry_level)))
  Act-success read_call at e = ground arith
  Act-success (read_reenter h) at e = ground arith
  Act-success (read_first h) at e = ground arith
  Act-success (read_free h) at e = ground arith
  Act-success (read_blocked h) at e = ground arith
  Act-success (read_own h) at e = ground arith
  Act-success (read_other h) at e = ground arith
  Act-success read_back at e = ground arith
  Act-success (read_spin h) at e = ground arith
  Act-success (read_interrupted h) at e = ground arith
  Act-success (read_retry h) at e = ground arith
  Act-success (read_unlock h) at e = ground arith
  Act-success write_call at e = ground arith
  Act-success (write_first h) at e = ground arith
  Act-success (write_later h) at e = ground arith
  Act-success (write_own h) at e = ground arith
  Act-success (write_other h) at e = ground arith
  Act-success write_reenter at e = ground arith
  Act-success write_back at e = ground arith
  Act-success (write_refused h) at e = ground arith
  Act-success (write_queue h) at e = ground arith
  Act-success (write_spin h) at e = ground arith
  Act-success (write_interrupted h) at e = ground arith
  Act-success (write_retry h) at e = ground arith
  Act-success (scan_self h h1) at e = ground arith
  Act-success (scan_free h h1 h2) at e = ground arith
  Act-success (scan_spin h h1 h2) at e = ground arith
  Act-success (scan_interrupted h h1 h2) at e = ground arith
  Act-success (scan_end h) at e = ground arith
  Act-success write_undone at e = ground arith
  Act-success write_publish at e = ground arith
  Act-success write_locked at e = ground arith
  Act-success (write_unlock h) at e = ground arith
  Act-success (unlock_last h) at e = ground arith
  Act-success (unlock_inner h) at e = ground arith
  Act-success unlock_publish at e = ground arith
  Act-success unlock_done at e = ground arith
