-- ===== src/BoundedQueue/History.antt =====
-- What the calls of a `BoundedQueue` (fma-common/bounded_queue.h) that returned say of its contents,
-- in the order in which they held the mutex.
use mathlib.Core.List.Perm
use mathlib.Core.List.{Perm}
use fma_common.Common.{
  ℕ, max, ap₂, subst, ◌≤◌, ◌<◌, ◌≡◌, refl, ◌∙◌, ap, sym, Bool, true, false, List, [], ◌∷◌, ◌++◌,
  arith, length, append_assoc, length-append, none, some,
}
use fma_common.BoundedQueue.{
  BoundedQueue, returns, with_capacity, is_empty, push, pop_impl, pop_front, pop_back, split_back,
  take_from, end_queue, wait_empty, set_capacity,
}

module _ {ℓ} {A : Type ℓ} where
  -- The states that a queue reaches, by every call that returns: with the elements that pushes accepted,
  -- those that `PopFront` returned and those that `PopBack` returned, each in their order. `limit` is the
  -- greatest capacity that the queue has had.
  pub data Runs : ℕ → List A → List A → List A → BoundedQueue A → Type ℓ where
    start : (limit : ℕ) → Runs limit [] [] [] (with_capacity limit)
    pushed :
        {limit : ℕ} {ins outs backs : List A} {q r : BoundedQueue A} (d : A)
        → Runs limit ins outs backs q
        → push q d ≡ returns (true, r)
        → Runs limit (ins ++ d ∷ []) outs backs r
    refused :
        {limit : ℕ} {ins outs backs : List A} {q r : BoundedQueue A} (d : A)
        → Runs limit ins outs backs q
        → push q d ≡ returns (false, r)
        → Runs limit ins outs backs r
    popped :
        {limit : ℕ} {ins outs backs : List A} {q r : BoundedQueue A} (x : A)
        → Runs limit ins outs backs q
        → pop_front q ≡ returns (some x, r)
        → Runs limit ins (outs ++ x ∷ []) backs r
    popped_back :
        {limit : ℕ} {ins outs backs : List A} {q r : BoundedQueue A} (x : A)
        → Runs limit ins outs backs q
        → pop_back q ≡ returns (some x, r)
        → Runs limit ins outs (x ∷ backs) r
    stopped :
        {limit : ℕ} {ins outs backs : List A} {q r : BoundedQueue A} (front : Bool)
        → Runs limit ins outs backs q
        → pop_impl front q ≡ returns (none, r)
        → Runs limit ins outs backs r
    resized :
        {limit : ℕ} {ins outs backs : List A} {q : BoundedQueue A} (capacity : ℕ)
        → Runs limit ins outs backs q
        → Runs (max limit capacity) ins outs backs (set_capacity q capacity)
    emptied :
        {limit : ℕ} {ins outs backs : List A} {q r : BoundedQueue A} (b : Bool)
        → Runs limit ins outs backs q
        → wait_empty q ≡ returns (b, r)
        → Runs limit ins outs backs r
    ended :
        {limit : ℕ} {ins outs backs : List A} {q : BoundedQueue A}
        → Runs limit ins outs backs q
        → Runs limit ins outs backs (end_queue q)

  -- The elements of the third list are those of the first and those of the second, each in their order.
  pub data Interleaved : List A → List A → List A → Type ℓ where
    nil : Interleaved [] [] []
    left : {xs ys zs : List A} (x : A) → Interleaved xs ys zs → Interleaved (x ∷ xs) ys (x ∷ zs)
    right : {xs ys zs : List A} (y : A) → Interleaved xs ys zs → Interleaved xs (y ∷ ys) (y ∷ zs)

  Interleaved-snoc :
      {xs ys zs : List A} (d : A)
      → Interleaved xs ys zs
      → Interleaved (xs ++ d ∷ []) ys (zs ++ d ∷ [])
  Interleaved-snoc d nil = left d nil
  Interleaved-snoc d (left x m) = left x (Interleaved-snoc d m)
  Interleaved-snoc d (right y m) = right y (Interleaved-snoc d m)

  -- The last element of the first list goes over to the second.
  Interleaved-last :
      (xs : List A) (x : A) {l ys zs : List A}
      → l ≡ xs ++ x ∷ []
      → Interleaved l ys zs
      → (gone : List A) × Perm gone (x ∷ ys) × Interleaved xs gone zs
  Interleaved-last [] x e nil = absurd cc
  Interleaved-last (y ∷ xs) x e nil = absurd cc
  Interleaved-last [] x e (left {xs} {ys} {zs} y m) =
      let same : y ≡ x = cc in
      let nothing : xs ≡ [] = cc in
      (
        y ∷ ys,
        subst (λ z. Perm (y ∷ ys) (z ∷ ys)) same (Perm.refl (y ∷ ys)),
        right y (subst (λ l. Interleaved l ys zs) nothing m),
      )
  Interleaved-last (w ∷ xs) x e (left {xs = l} {ys} {zs} y m) =
      let same : y ≡ w = cc in
      let rest : l ≡ xs ++ x ∷ [] = cc in
      let (gone, perm, m') = Interleaved-last xs x rest m in
      (gone, perm, subst (λ z. Interleaved (z ∷ xs) gone (y ∷ zs)) same (left y m'))
  Interleaved-last xs x {l} {ys} {zs} e (right y m) =
      let (gone, perm, m') = Interleaved-last xs x e m in
      (y ∷ gone, Perm.trans (Perm.cons y perm) (Perm.swap _ _ _), right y m')

  push-true :
      (q r : BoundedQueue A) (d : A)
      → push q d ≡ returns (true, r)
      → (r.queue ≡ q.queue ++ d ∷ []) × (r.capacity ≡ q.capacity) × (length q.queue < q.capacity)
  unfolding push
  push-true q r d e = ground arith

  push-false : (q r : BoundedQueue A) (d : A) → push q d ≡ returns (false, r) → r ≡ q
  unfolding push
  push-false q r d e = ground arith

  take_from_front :
      (q r : BoundedQueue A) (l : List A) (x : A)
      → take_from true q l ≡ returns (some x, r)
      → (l ≡ x ∷ r.queue) × (r.capacity ≡ q.capacity)
  unfolding take_from
  take_from_front q r [] x e = absurd cc
  take_from_front q r (y ∷ ys) x e =
      let state : record q { queue = ys } ≡ r = cc in
      (
        let same : y ≡ x = cc in
            let rest : ys ≡ r.queue = ap (λ (s : BoundedQueue A). s.queue) state in
            rw (same, rest) refl,
        ap (λ (s : BoundedQueue A). s.capacity) (sym state),
      )

  pop_some :
      (q r : BoundedQueue A) (x : A)
      → pop_front q ≡ returns (some x, r)
      → (q.queue ≡ x ∷ r.queue) × (r.capacity ≡ q.capacity)
  unfolding pop_front pop_impl
  pop_some q r x e = take_from_front q r q.queue x (ground arith)

  split_back-snoc : (x : A) (xs : List A) → x ∷ xs ≡ (split_back x xs).0 ++ (split_back x xs).1 ∷ []
  unfolding split_back
  split_back-snoc x [] = refl
  split_back-snoc x (y ∷ xs) = ap (◌∷◌ x) (split_back-snoc y xs)

  take_from_back :
      (q r : BoundedQueue A) (l : List A) (x : A)
      → take_from false q l ≡ returns (some x, r)
      → (l ≡ r.queue ++ x ∷ []) × (r.capacity ≡ q.capacity)
  unfolding take_from
  take_from_back q r [] x e = absurd cc
  take_from_back q r (y ∷ ys) x e =
      let (front, last) = split_back y ys in
      let state : record q { queue = (split_back y ys).0 } ≡ r = cc in
      let same : (split_back y ys).1 ≡ x = cc in
      (
        split_back-snoc y ys
            ∙ ap₂ (λ (f : List A) (z : A). f ++ z ∷ []) (ap (λ (s : BoundedQueue A). s.queue) state)
                same,
        ap (λ (s : BoundedQueue A). s.capacity) (sym state),
      )

  pop_back-some :
      (q r : BoundedQueue A) (x : A)
      → pop_back q ≡ returns (some x, r)
      → (q.queue ≡ r.queue ++ x ∷ []) × (r.capacity ≡ q.capacity)
  unfolding pop_back pop_impl
  pop_back-some q r x e = take_from_back q r q.queue x (ground arith)

  take_from-none :
      (front : Bool) (q r : BoundedQueue A) (l : List A)
      → take_from front q l ≡ returns (none, r)
      → r ≡ q
  unfolding take_from
  take_from-none front q r [] e = absurd cc
  take_from-none true q r (y ∷ ys) e = absurd cc
  take_from-none false q r (y ∷ ys) e = absurd cc

  pop_none : (front : Bool) (q r : BoundedQueue A) → pop_impl front q ≡ returns (none, r) → r ≡ q
  unfolding pop_impl
  pop_none front q r e = ground (arith, take_from-none front q r q.queue)

  wait_empty-same : (b : Bool) (q r : BoundedQueue A) → wait_empty q ≡ returns (b, r) → r ≡ q
  unfolding wait_empty
  wait_empty-same b q r e = ground arith

  abbrev Kept : ℕ → List A → List A → List A → BoundedQueue A → Type ℓ
  Kept limit ins outs backs q =
      ((gone : List A) × Perm gone backs × Interleaved (outs ++ q.queue) gone ins)
      × (length q.queue ≤ limit)
      × (q.capacity ≤ limit)

  set_keeps :
      (limit capacity : ℕ) (ins outs backs : List A) (q : BoundedQueue A)
      → Kept limit ins outs backs q
      → Kept (max limit capacity) ins outs backs (set_capacity q capacity)
  unfolding set_capacity
  set_keeps limit capacity ins outs backs q (order, size, same) =
      (order, omega (arith, size), omega arith)

  end_keeps :
      (limit : ℕ) (ins outs backs : List A) (q : BoundedQueue A)
      → Kept limit ins outs backs q
      → Kept limit ins outs backs (end_queue q)
  unfolding end_queue
  end_keeps limit ins outs backs q h = h

  -- Whatever the order of the calls of `Push`, `PopFront`, `PopBack`, `SetCapacity`, `WaitEmpty` and
  -- `EndQueue`: of what was pushed, in the order of the pushes, a part is what `PopBack` returned, in some
  -- order, and the rest is what `PopFront` returned, in the order in which it did, and then what the
  -- queue holds; and the queue never holds more than the greatest capacity that it has had.
  pub Runs-fifo :
      {limit : ℕ} {ins outs backs : List A} {q : BoundedQueue A}
      → Runs limit ins outs backs q
      → ((gone : List A) × Perm gone backs × Interleaved (outs ++ q.queue) gone ins)
        × (length q.queue ≤ limit)
        × (q.capacity ≤ limit)
  Runs-fifo (start limit) =
      unfold with_capacity in (([], Perm.refl [], nil), omega arith, omega arith)
  Runs-fifo (pushed {limit} {ins} {outs} {backs} {q} {r} d h e) =
      let ((gone, perm, order), size, same) = Runs-fifo h in
      let (after, keeps, room) = push-true q r d e in
      (
        (
          gone,
          perm,
          subst (λ l. Interleaved l gone (ins ++ d ∷ []))
              (append_assoc outs q.queue (d ∷ []) ∙ ap (◌++◌ outs) (sym after))
              (Interleaved-snoc d order),
        ),
        omega (arith, ap length after, length-append q.queue (d ∷ []), room, same),
        omega (arith, keeps, same),
      )
  Runs-fifo (refused {limit} {ins} {outs} {backs} {q} {r} d h e) =
      subst (Kept limit ins outs backs) (sym (push-false q r d e)) (Runs-fifo h)
  Runs-fifo (popped {limit} {ins} {outs} {backs} {q} {r} x h e) =
      let ((gone, perm, order), size, same) = Runs-fifo h in
      let (before, keeps) = pop_some q r x e in
      (
        (
          gone,
          perm,
          subst (λ l. Interleaved l gone ins)
              (ap (◌++◌ outs) before ∙ sym (append_assoc outs (x ∷ []) r.queue)) order,
        ),
        omega (arith, ap length before, size),
        omega (arith, keeps, same),
      )
  Runs-fifo (popped_back {limit} {ins} {outs} {backs} {q} {r} x h e) =
      let ((gone, perm, order), size, same) = Runs-fifo h in
      let (before, keeps) = pop_back-some q r x e in
      let (gone', perm', order') =
        Interleaved-last (outs ++ r.queue) x
          (ap (◌++◌ outs) before ∙ sym (append_assoc outs r.queue (x ∷ []))) order in
      (
        (gone', Perm.trans perm' (Perm.cons x perm), order'),
        omega (arith, ap length before, length-append r.queue (x ∷ []), size),
        omega (arith, keeps, same),
      )
  Runs-fifo (stopped {limit} {ins} {outs} {backs} {q} {r} front h e) =
      subst (Kept limit ins outs backs) (sym (pop_none front q r e)) (Runs-fifo h)
  Runs-fifo (resized {limit} {ins} {outs} {backs} {q} capacity h) =
      set_keeps limit capacity ins outs backs q (Runs-fifo h)
  Runs-fifo (emptied {limit} {ins} {outs} {backs} {q} {r} b h e) =
      subst (Kept limit ins outs backs) (sym (wait_empty-same b q r e)) (Runs-fifo h)
  Runs-fifo (ended {limit} {ins} {outs} {backs} {q} h) =
      end_keeps limit ins outs backs q (Runs-fifo h)

  -- After `EndQueue` no call waits: pushing, popping at either end and waiting for an empty queue
  -- return false and change nothing.
  pub ended_lem :
      (q : BoundedQueue A) (d : A) (front : Bool)
      → (push (end_queue q) d ≡ returns (false, end_queue q))
        × (pop_impl front (end_queue q) ≡ returns (none, end_queue q))
        × (wait_empty (end_queue q) ≡ returns (false, end_queue q))
  unfolding push pop_impl wait_empty end_queue
  ended_lem q d front = ground arith

  split_back_snoc : (xs : List A) (x d : A) → split_back x (xs ++ d ∷ []) ≡ (x ∷ xs, d)
  unfolding split_back
  split_back_snoc [] x d = refl
  split_back_snoc (y ∷ xs) x d = rw (split_back_snoc xs y d) refl

  take_back_snoc :
      (q : BoundedQueue A) (xs : List A) (d : A)
      → take_from false q (xs ++ d ∷ []) ≡ returns (some d, record q { queue = xs })
  unfolding take_from split_back
  take_back_snoc q [] d = refl
  take_back_snoc q (x ∷ xs) d = rw (split_back_snoc xs x d) refl

  push_state :
      (q r : BoundedQueue A) (d : A)
      → push q d ≡ returns (true, r)
      → (record q { queue = q.queue ++ d ∷ [] } ≡ r) × (q.kill_switch ≡ false)
  unfolding push
  push_state q r d e = ground arith

  abbrev live : BoundedQueue A → List A → BoundedQueue A
  live q xs = record q { queue = xs; kill_switch = false }

  not_empty : (q : BoundedQueue A) (xs : List A) (d : A) → is_empty (live q (xs ++ d ∷ [])) ≡ false
  unfolding is_empty
  not_empty q [] d = refl
  not_empty q (x ∷ xs) d = refl

  pop_back_snoc :
      (q : BoundedQueue A) (xs : List A) (d : A)
      → pop_back (live q (xs ++ d ∷ [])) ≡ returns (some d, live q xs)
  unfolding pop_back pop_impl
  pop_back_snoc q xs d = rw (not_empty q xs d) (take_back_snoc (live q (xs ++ d ∷ [])) xs d)

  -- An element that a push accepted is what `PopBack` returns next, and then the queue is as before
  -- the push.
  pub pop_back-push :
      (q r : BoundedQueue A) (d : A)
      → push q d ≡ returns (true, r)
      → pop_back r ≡ returns (some d, q)
  pop_back-push q r d e =
      let (state, on) = push_state q r d e in
      let as_live =
        λ (xs : List A). ap (λ (b : Bool). record q { queue = xs; kill_switch = b }) (sym on) in
      ap pop_back (sym state ∙ sym (as_live (q.queue ++ d ∷ [])))
      ∙ pop_back_snoc q q.queue d
      ∙ ap (λ (s : BoundedQueue A). returns (some d, s)) (as_live q.queue)
