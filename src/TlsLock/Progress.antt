-- ===== src/TlsLock/Progress.antt =====
-- What a thread gets from the `InterruptableTLSRWLock` (fma-common/rw_lock.h) when the others leave it free.
use fma_common.Common.{ℕ, ◌<◌, ◌≡◌, ◌≢◌, some}
use fma_common.TlsLock.{success, Place, idle, local, Globals, Act, InterruptableTlsRwLock, Reaches}

module _ (n t : ℕ) (inside : t < n) where
  -- Thread `t` stands at `p` with the members `g`, and every other thread's counter is 0.
  abbrev Alone : InterruptableTlsRwLock → Place → ℕ → Globals → Type 0
  Alone s p r g =
      (s.threads t ≡ local p r)
      × (s.globals ≡ g)
      × ((j : ℕ) → t ≢ j → j < n → (s.threads j).reads ≡ 0)

  -- Such a state is reached.
  abbrev Next : InterruptableTlsRwLock → Place → ℕ → Globals → Type 0
  Next s p r g = (u : InterruptableTlsRwLock) × Reaches n s u × Alone u p r g

  -- An operation of thread `t` that ends its call with success, in a state that is reached.
  abbrev Returns : InterruptableTlsRwLock → ℕ → Globals → Type 0
  Returns s r g =
      (v : InterruptableTlsRwLock) × Reaches n s v
      × Act n t v.threads (v.threads t).at idle (v.threads t).reads r v.globals g (some success)
