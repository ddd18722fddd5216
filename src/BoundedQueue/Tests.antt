-- ===== src/BoundedQueue/Tests.antt =====
-- Runs of `BoundedQueue` (fma-common/bounded_queue.h).
use mathlib.Core.List.{Perm}
use fma_common.Common.{ℕ, ◌≡◌, ◌≤◌, refl, true, false, List, [], ◌∷◌, length, some}
use fma_common.BoundedQueue.{
  BoundedQueue, waits, returns, with_capacity, push, pop_impl, pop_front, pop_back, split_back,
  set_capacity, take_from, is_empty,
}
use fma_common.BoundedQueue.History.{
  Runs, start, pushed, popped, popped_back, resized, Interleaved, Runs-fifo,
}

abbrev state_demo : List ℕ → BoundedQueue ℕ
state_demo xs = record { queue = xs; kill_switch = false; capacity = 2 }

push_five : push (with_capacity 2) 5 ≡ returns (true, state_demo (5 ∷ []))
unfolding push with_capacity
push_five = refl

push_six : push (state_demo (5 ∷ [])) 6 ≡ returns (true, state_demo (5 ∷ 6 ∷ []))
unfolding push
push_six = refl

push_full : push (state_demo (5 ∷ 6 ∷ [])) 7 ≡ waits
unfolding push
push_full = refl

pop_five : pop_front (state_demo (5 ∷ 6 ∷ [])) ≡ returns (some 5, state_demo (6 ∷ []))
unfolding pop_front pop_impl take_from is_empty
pop_five = refl

pop_six :
    pop_back (record (state_demo (5 ∷ 6 ∷ [])) { capacity = 3 })
    ≡ returns (some 6, record (state_demo (5 ∷ [])) { capacity = 3 })
unfolding pop_back pop_impl take_from is_empty split_back
pop_six = refl

-- Two pushes, a greater capacity, and a pop at the back.
demo-Runs : Runs 3 (5 ∷ 6 ∷ []) [] (6 ∷ []) (record (state_demo (5 ∷ [])) { capacity = 3 })
unfolding set_capacity
demo-Runs = popped_back 6 (resized 3 (pushed 6 (pushed 5 (start 2) push_five) push_six)) pop_six

-- Two pushes and a pop at the front.
front-Runs : Runs 2 (5 ∷ 6 ∷ []) (5 ∷ []) [] (state_demo (6 ∷ []))
front-Runs = popped 5 (pushed 6 (pushed 5 (start 2) push_five) push_six) pop_five

Runs-fifo_example :
    ((gone : List ℕ) × Perm gone (6 ∷ []) × Interleaved (5 ∷ []) gone (5 ∷ 6 ∷ []))
    × (length {A = ℕ} (5 ∷ []) ≤ 3)
    × ◌≤◌ 3 3
Runs-fifo_example = Runs-fifo demo-Runs
