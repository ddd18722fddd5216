-- ===== src/ThreadId/Tests.antt =====
-- Runs of `ThreadIdAssigner` (fma-common/thread_id.h).
use fma_common.Common.{
  ℕ, ◌<◌, ◌≡◌, ◌⊎◌, Bool, true, false, List, [], ◌∷◌, none, some, length, get_or, All,
}
use fma_common.ThreadId.{get_thread_id, release_thread_id, get_thread_id_lem}

abbrev flags_demo : List Bool
flags_demo = true ∷ false ∷ true ∷ []

get_thread_id_example :
    ((get_thread_id flags_demo ≡ (none, flags_demo)) × All (λ b. b ≡ true) flags_demo)
    ⊎ ((i : ℕ) × ((get_thread_id flags_demo).0 ≡ some i)
        × (i < length flags_demo)
        × (get_or flags_demo i true ≡ false)
        × (get_or (get_thread_id flags_demo).1 i false ≡ true)
        × (release_thread_id (get_thread_id flags_demo).1 i ≡ flags_demo))
get_thread_id_example = get_thread_id_lem flags_demo
