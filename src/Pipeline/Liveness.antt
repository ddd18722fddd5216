-- ===== src/Pipeline/Liveness.antt =====
-- A `PipelineStage` (fma-common/pipeline.h) that is not stopped comes to an end with its inputs.
use fma_common.Common.{
  ℕ, zero, suc, ◌+◌, ◌≤◌, ◌<◌, ◌≡◌, ◌⊎◌, inl, inr, refl, sym, ap, ◌∙◌, true, false, none, some,
  List, [], ◌∷◌, ◌++◌, All, All-append, arith, Bool-cases, subst, Option-cases, ◌&&◌,
}
use fma_common.Pipeline.{
  new_task, TaskInstance, PipelineStage, Settings, returns, is_finished, empty_stage, find_task,
  erase_task, finish_task, has_running, stop, retire, start_more, check_queue_nolock, push,
  run_task, Runs, start, pushed, refused, ran, stopped,
}
use fma_common.Pipeline.Order.{push-true, push-false}
use fma_common.Pipeline.Progress.{
  Unfinished, unfinished, Headed, FirstUnfinished, All-first, headed_runs, find_task-finish,
  erase_task-All, erase_task-unfinished, finish_task-unfinished, retire_front-first, IsLive,
  start_more-IsLive, retire_at_front,
}

module _ {A B : Type 0} (c : Settings A B) where
  -- A task that ends leaves one task less that is not finished.
  run_task-IsLive :
      (id : ℕ) (s : PipelineStage A B)
      → s.kill_switch ≡ false
      → IsLive c s
      → has_running id s.input_buffer ≡ true
      → IsLive c (run_task c id s)
        × (unfinished (run_task c id s).input_buffer < unfinished s.input_buffer)
        × ((run_task c id s).kill_switch ≡ false)
  unfolding run_task check_queue_nolock
  run_task-IsLive id s live v runs = by_order (Bool-cases c.out_of_order)
    where
      ended : PipelineStage A B
      ended = record s { input_buffer = finish_task c.func id s.input_buffer }

      finishing :
          FirstUnfinished (retire c (some id) ended).input_buffer
          → (c.out_of_order ≡ true → All Unfinished (retire c (some id) ended).input_buffer)
          → unfinished (retire c (some id) ended).input_buffer < unfinished s.input_buffer
          → (retire c (some id) ended).kill_switch ≡ false
          → IsLive c (start_more c (retire c (some id) ended))
            × (unfinished (start_more c (retire c (some id) ended)).input_buffer
                < unfinished s.input_buffer)
            × ((start_more c (retire c (some id) ended)).kill_switch ≡ false)
      finishing first all fewer kill =
          let (v', same, kill') = start_more-IsLive c (retire c (some id) ended) kill first all in
          (v', omega (arith, same, fewer), kill')

      by_order :
          ((c.out_of_order ≡ true) ⊎ (c.out_of_order ≡ false))
          → IsLive c (start_more c (retire c (some id) ended))
            × (unfinished (start_more c (retire c (some id) ended)).input_buffer
                < unfinished s.input_buffer)
            × ((start_more c (retire c (some id) ended)).kill_switch ≡ false)
      by_order (inl e) =
          let (t, found, state, output) = find_task-finish c.func id s.input_buffer runs in
          let buffer : (retire c (some id) ended).input_buffer
              ≡ erase_task id (finish_task c.func id s.input_buffer) =
            unfold retire in rw (found, retire, e, state) refl in
          let kill : (retire c (some id) ended).kill_switch ≡ s.kill_switch =
            unfold retire in rw (found, retire, e, state) refl in
          let all = erase_task-All c.func id s.input_buffer (v.retired e) in
          finishing (rw buffer (All-first _ all)) (λ _. rw buffer all)
            (rw buffer (
              omega (
                arith,
                erase_task-unfinished id (finish_task c.func id s.input_buffer),
                (finish_task-unfinished c.func id s.input_buffer).1 runs,
              )))
            (kill ∙ live)
      by_order (inr e) =
          let (first, same, kill) = retire_at_front c ended e (some id) in
          finishing first (λ h. absurd (cc))
            (omega (arith, same, (finish_task-unfinished c.func id s.input_buffer).1 runs))
            (kill ∙ live)

  push-IsLive :
      (s t : PipelineStage A B) (d : A)
      → push c s d ≡ returns (true, t)
      → IsLive c s
      → IsLive c t × (t.kill_switch ≡ false)
  push-IsLive s t d e v = let (live, same) = push-true c s t d e in rw same (waiting live)
    where
      later : PipelineStage A B
      later = record s {
        input_buffer =
            s.input_buffer
            ++ record { id = s.next_id; input = d; output = none; state = new_task } ∷ [];
        next_id = s.next_id + 1;
      }

      waiting :
          s.kill_switch ≡ false
          → IsLive c (check_queue_nolock c none later)
            × ((check_queue_nolock c none later).kill_switch ≡ false)
      waiting live =
          unfold check_queue_nolock retire is_finished in
          let (first, same, all) =
            retire_front-first s.kill_switch later.input_buffer s.next_stage in
          let (v', same', kill) =
            start_more-IsLive c (retire c none later) live first
              (λ h. all (All-append Unfinished s.input_buffer _ (v.retired h) (refl, tt))) in
          (v', kill)

  pub run_task-kill :
      (id : ℕ) (s : PipelineStage A B) → (run_task c id s).kill_switch ≡ s.kill_switch
  unfolding run_task check_queue_nolock start_more
  run_task-kill id s =
      retire-kill (record s { input_buffer = finish_task c.func id s.input_buffer })
    where
      retire-kill : (t : PipelineStage A B) → (retire c (some id) t).kill_switch ≡ t.kill_switch
      retire-kill t = elim (Option-cases (find_task id t.input_buffer)) [
        | inl e ↦ unfold retire in rw (e, retire) refl
        | inr (u, e) ↦ elim (Bool-cases (c.out_of_order && is_finished u.state)) [
          | inl h ↦ unfold retire in rw (e, retire, h) refl
          | inr h ↦ unfold retire in rw (e, retire, h) refl
        ]
      ]

  start-IsLive : IsLive c (empty_stage {A = A} {B = B})
  unfolding empty_stage
  start-IsLive = record { headed = tt; retired = λ _. tt }

  pub stop-kill : (s : PipelineStage A B) → (stop s).kill_switch ≡ false → ⊥
  unfolding stop
  stop-kill s h = cc

  Runs-IsLive :
      {ins : List A} {s : PipelineStage A B} → Runs c ins s → s.kill_switch ≡ false → IsLive c s
  Runs-IsLive start live = start-IsLive
  Runs-IsLive (pushed {s = s} {t = t} d r e) live =
      (push-IsLive s t d e (Runs-IsLive r (push-true c s t d e).0)).0
  Runs-IsLive (refused {s = s} {t = t} d r e) live =
      let same = push-false c s t d e in
      subst (IsLive c) (sym same)
        (Runs-IsLive r (ap (λ (u : PipelineStage A B). u.kill_switch) (sym same) ∙ live))
  Runs-IsLive (ran {s = s} id r e) live =
      let before = sym (run_task-kill id s) ∙ live in
      (run_task-IsLive id s before (Runs-IsLive r before) e).0
  Runs-IsLive (stopped {s = s} r) live = absurd (stop-kill s live)

  -- Tasks end, and nothing else happens.
  pub data Drains (s : PipelineStage A B) : PipelineStage A B → Type 0 where
    here : Drains s s
    next :
        {t : PipelineStage A B} (id : ℕ)
        → Drains s t
        → has_running id t.input_buffer ≡ true
        → Drains s (run_task c id t)

  pub Drains-Runs :
      {ins : List A} {s t : PipelineStage A B} → Runs c ins s → Drains s t → Runs c ins t
  Drains-Runs r here = r
  Drains-Runs r (next id d e) = ran id (Drains-Runs r d) e

  -- Of the tasks that are left one is running.
  some_running :
      (l : List (TaskInstance A B)) → Headed l → (l ≡ []) ⊎ ((id : ℕ) × (has_running id l ≡ true))
  some_running [] h = inl refl
  some_running (t ∷ ts) h = inr (t.id, headed_runs t ts h)

  drain :
      (n : ℕ) (s t : PipelineStage A B)
      → unfinished t.input_buffer ≤ n
      → t.kill_switch ≡ false
      → IsLive c t
      → Drains s t
      → (u : PipelineStage A B) × Drains s u × (u.kill_switch ≡ false) × (u.input_buffer ≡ [])
  drain zero s t bound live v d = elim (some_running t.input_buffer v.headed) [
    | inl e ↦ (t, d, live, e)
    | inr (id, run) ↦ absurd (omega (arith, (run_task-IsLive id t live v run).1, bound))
  ]
  drain (suc n) s t bound live v d = elim (some_running t.input_buffer v.headed) [
    | inl e ↦ (t, d, live, e)
    | inr (id, run) ↦
        let (v', fewer, live') = run_task-IsLive id t live v run in
        drain n s (run_task c id t) (omega (arith, fewer, bound)) live' v' (next id d run)
  ]

  pub Drains-empty :
      {ins : List A} {s : PipelineStage A B}
      → Runs c ins s
      → s.kill_switch ≡ false
      → (u : PipelineStage A B) × Drains s u × (u.kill_switch ≡ false) × (u.input_buffer ≡ [])
  Drains-empty {s = s} r live =
      drain (unfinished s.input_buffer) s s (omega arith) live (Runs-IsLive r live) here
