-- ===== src/BoundedQueue.antt =====
-- fma-common/bounded_queue.h, class `BoundedQueue`. Each method runs under the mutex; a wait on a
-- condition variable releases it, so that a method is a guard that must hold and one atomic step:
-- `waits` stands for a call that is still waiting. The condition variables themselves, and which of the
-- waiting threads `notify_one` and `notify_all` wake, are not in the model: a waiting call may try again
-- at any time. The queue is a list, its front first.
pub mod History
mod Tests
use fma_common.Common.{
  ℕ, ◌+◌, ◌≡◌, Bool, true, false, not, ◌&&◌, List, [], ◌∷◌, ◌++◌, leb, ltb, if◌then◌else◌, length,
  Option, none, some,
}

pub record BoundedQueue {ℓ} (A : Type ℓ) : Type ℓ where
  pub queue : List A
  pub kill_switch : Bool
  pub capacity : ℕ

-- What one attempt of a method does.
pub data Attempt {ℓ} (A : Type ℓ) : Type ℓ where
  waits : Attempt A
  returns : A → Attempt A

module _ {ℓ} {A : Type ℓ} where
  pub with_capacity : ℕ → BoundedQueue A
  with_capacity n = record { queue = []; kill_switch = false; capacity = n }

  pub set_capacity : BoundedQueue A → ℕ → BoundedQueue A
  set_capacity q n = record q { capacity = n }

  pub is_empty : BoundedQueue A → Bool
  is_empty q = elim q.queue [ [] ↦ true | x ∷ xs ↦ false ]

  -- The result and the state after it.
  pub push : BoundedQueue A → A → Attempt (Bool × BoundedQueue A)
  push q d =
      if leb q.capacity (length q.queue) && not q.kill_switch
      then waits
      else if q.kill_switch
      then returns (false, q)
      else returns (not q.kill_switch, record q { queue = q.queue ++ d ∷ [] })

  -- The last element and those before it.
  pub split_back : A → List A → List A × A
  split_back x [] = ([], x)
  split_back x (y ∷ xs) = let (front, last) = split_back y xs in (x ∷ front, last)

  -- The element taken from either end; the loop before it leaves none empty.
  pub take_from : Bool → BoundedQueue A → List A → Attempt (Option A × BoundedQueue A)
  take_from front q [] = waits
  take_from true q (x ∷ xs) = returns (some x, record q { queue = xs })
  take_from false q (x ∷ xs) =
      returns (some (split_back x xs).1, record q { queue = (split_back x xs).0 })

  -- `none` is the result `false`.
  pub pop_impl : Bool → BoundedQueue A → Attempt (Option A × BoundedQueue A)
  pop_impl front q =
      if is_empty q && not q.kill_switch
      then waits
      else if q.kill_switch
      then returns (none, q)
      else take_from front q q.queue

  pub pop_front : BoundedQueue A → Attempt (Option A × BoundedQueue A)
  pop_front q = pop_impl true q

  pub pop_back : BoundedQueue A → Attempt (Option A × BoundedQueue A)
  pop_back q = pop_impl false q

  pub end_queue : BoundedQueue A → BoundedQueue A
  end_queue q = record q { kill_switch = true }

  pub wait_empty : BoundedQueue A → Attempt (Bool × BoundedQueue A)
  wait_empty q =
      if not (is_empty q) && not q.kill_switch then waits else returns (not q.kill_switch, q)
