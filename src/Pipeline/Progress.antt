-- ===== src/Pipeline/Progress.antt =====
-- A `PipelineStage` (fma-common/pipeline.h) that is not stopped always has a task running, and comes to an
-- end with its inputs.
use fma_common.Common.{
  ℕ, zero, suc, ◌+◌, ◌≤◌, ◌<◌, ◌≡◌, inl, inr, refl, sym, ◌∙◌, max, Bool, true, false, Option, some,
  List, [], ◌∷◌, ◌==◌, All, if◌then◌else◌, arith, Bool-cases, ==_iff, subst,
}
use fma_common.Pipeline.{
  TaskState, finished, TaskInstance, PipelineStage, Settings, is_finished, is_running, retire_front,
  find_task, erase_task, output_to_next_stage, start_task, start_tasks, finish_task, has_running,
  retire, start_more,
}
use fma_common.Pipeline.Order.{retire_in_order}

running_unfinished : (s : TaskState) → is_running s ≡ true → is_finished s ≡ false
unfolding is_running is_finished
running_unfinished s h = ground arith

module _ {A B : Type 0} where
  abbrev pub Unfinished : TaskInstance A B → Type 0
  Unfinished t = is_finished t.state ≡ false

  -- The number of tasks that are not finished.
  pub unfinished : List (TaskInstance A B) → ℕ
  unfinished [] = 0
  unfinished (t ∷ ts) = (if is_finished t.state then 0 else 1) + unfinished ts

  -- The first task, if there is one, is running.
  abbrev pub Headed : List (TaskInstance A B) → Type 0
  Headed [] = Unit
  Headed (t ∷ ts) = is_running t.state ≡ true

  abbrev pub FirstUnfinished : List (TaskInstance A B) → Type 0
  FirstUnfinished [] = Unit
  FirstUnfinished (t ∷ ts) = Unfinished t

  pub retire_front-first :
      (kill : Bool) (ts : List (TaskInstance A B)) (outs : List B)
      → FirstUnfinished (retire_front kill ts outs).0
        × (unfinished (retire_front kill ts outs).0 ≡ unfinished ts)
        × (All Unfinished ts → All Unfinished (retire_front kill ts outs).0)
  unfolding retire_front unfinished
  retire_front-first kill [] outs = (tt, refl, λ h. h)
  retire_front-first kill (t ∷ ts) outs =
      let (first, same, all) = retire_front-first kill ts (output_to_next_stage kill outs t) in
      elim (Bool-cases (is_finished t.state)) [
        | inl e ↦ rw e (first, omega (arith, same), λ h. all h.1)
        | inr e ↦
            let stay : retire_front kill (t ∷ ts) outs ≡ (t ∷ ts, outs) = rw e refl in
            subst
              (λ r.
                FirstUnfinished r.0
                × (unfinished r.0 ≡ unfinished (t ∷ ts))
                × (All Unfinished (t ∷ ts) → All Unfinished r.0))
              (sym stay) (e, refl, λ h. h)
      ]

  pub erase_task-unfinished :
      (id : ℕ) (ts : List (TaskInstance A B)) → unfinished (erase_task id ts) ≤ unfinished ts
  unfolding unfinished erase_task
  erase_task-unfinished id [] = omega arith
  erase_task-unfinished id (t ∷ ts) = elim (Bool-cases (t.id == id)) [
    | inl e ↦ rw e (omega arith)
    | inr e ↦ rw e (omega (arith, erase_task-unfinished id ts))
  ]

  start_task-running :
      (seq : ℕ) (t : TaskInstance A B)
      → (is_finished (start_task false seq t).0.state ≡ is_finished t.state)
        × (Unfinished t → is_running (start_task false seq t).0.state ≡ true)
  unfolding start_task is_finished is_running
  start_task-running seq t = ground arith

  start_tasks-Headed :
      (left seq : ℕ) (ts : List (TaskInstance A B))
      → (unfinished (start_tasks false left seq ts).0 ≡ unfinished ts)
        × (All Unfinished ts → All Unfinished (start_tasks false left seq ts).0)
        × (0 < left → FirstUnfinished ts → Headed (start_tasks false left seq ts).0)
  unfolding unfinished start_tasks
  start_tasks-Headed left seq [] = (refl, (λ h. h), λ _ _. tt)
  start_tasks-Headed zero seq (t ∷ ts) = (refl, (λ h. h), λ h _. absurd (omega arith))
  start_tasks-Headed (suc left) seq (t ∷ ts) =
      let (state, run) = start_task-running seq t in
      let (same, all, first) = start_tasks-Headed left (start_task false seq t).1 ts in
      (rw (state, same) refl, (λ h. (state ∙ h.0, all h.1)), λ _ h. run h)

  -- A task that runs is one less when it has ended.
  pub finish_task-unfinished :
      (func : A → B) (id : ℕ) (ts : List (TaskInstance A B))
      → (unfinished (finish_task func id ts) ≤ unfinished ts)
        × (has_running id ts ≡ true → unfinished (finish_task func id ts) < unfinished ts)
  unfolding unfinished finish_task has_running is_finished is_running
  finish_task-unfinished func id [] = (omega arith, λ h. ground (arith, h))
  finish_task-unfinished func id (t ∷ ts) =
      let (le, lt) = finish_task-unfinished func id ts in
      elim (Bool-cases (t.id == id)) [
        | inl e ↦ rw e (omega arith, λ h. rw (running_unfinished t.state h) (omega arith))
        | inr e ↦ rw e (omega (arith, le), λ h. omega (arith, lt h))
      ]

  pub headed_runs :
      (t : TaskInstance A B) (ts : List (TaskInstance A B))
      → is_running t.state ≡ true
      → has_running t.id (t ∷ ts) ≡ true
  unfolding has_running
  headed_runs t ts h = rw ((==_iff t.id t.id).1 refl) h

  pub All-first : (ts : List (TaskInstance A B)) → All Unfinished ts → FirstUnfinished ts
  All-first [] h = tt
  All-first (t ∷ ts) h = h.0

  pub erase_task-All :
      (func : A → B) (id : ℕ) (ts : List (TaskInstance A B))
      → All Unfinished ts
      → All Unfinished (erase_task id (finish_task func id ts))
  unfolding erase_task finish_task
  erase_task-All func id [] h = tt
  erase_task-All func id (t ∷ ts) h = elim (Bool-cases (t.id == id)) [
    | inl e ↦ rw (e, erase_task, e) h.1
    | inr e ↦ rw (e, erase_task, e) (h.0, erase_task-All func id ts h.1)
  ]

  -- The task that has run is in the list, finished and with its output.
  pub find_task-finish :
      (func : A → B) (id : ℕ) (ts : List (TaskInstance A B))
      → has_running id ts ≡ true
      → (t : TaskInstance A B) × (find_task id (finish_task func id ts) ≡ some t)
        × (is_finished t.state ≡ true)
        × (t.output ≡ some (func t.input))
  unfolding find_task finish_task has_running is_finished
  find_task-finish func id [] h = ground (arith, h)
  find_task-finish func id (u ∷ us) h = elim (Bool-cases (u.id == id)) [
    | inl e ↦ (
      record u { output = some (func u.input); state = finished },
      rw (e, find_task, e) refl,
      refl,
      refl,
    )
    | inr e ↦
        let later : has_running id us ≡ true = rw e at h in
        let (t, found, state, output) = find_task-finish func id us later in
        (t, rw (e, find_task, e) found, state, output)
  ]

module _ {A B : Type 0} (c : Settings A B) where
  -- While it is not stopped, the first task runs; with `out_of_order_` no finished task is left.
  pub record IsLive (s : PipelineStage A B) : Type 0 where
    pub headed : Headed s.input_buffer
    pub retired : c.out_of_order ≡ true → All Unfinished s.input_buffer

  pub start_more-IsLive :
      (s : PipelineStage A B)
      → s.kill_switch ≡ false
      → FirstUnfinished s.input_buffer
      → (c.out_of_order ≡ true → All Unfinished s.input_buffer)
      → IsLive (start_more c s)
        × (unfinished (start_more c s).input_buffer ≡ unfinished s.input_buffer)
        × ((start_more c s).kill_switch ≡ false)
  unfolding start_more
  start_more-IsLive s live first retired =
      let (same, all, head) =
        start_tasks-Headed (max c.max_active_tasks 1) s.seq_num s.input_buffer in
      (
        record {
          headed = rw live (head (omega arith) first);
          retired = λ h. rw live (all (retired h));
        },
        rw live same,
        live,
      )

  -- What is retired is finished.
  pub retire_at_front :
      (s : PipelineStage A B)
      → c.out_of_order ≡ false
      → (curr : Option ℕ)
      → FirstUnfinished (retire c curr s).input_buffer
        × (unfinished (retire c curr s).input_buffer ≡ unfinished s.input_buffer)
        × ((retire c curr s).kill_switch ≡ s.kill_switch)
  retire_at_front s h curr =
      let (first, same, all) = retire_front-first s.kill_switch s.input_buffer s.next_stage in
      rw (retire_in_order c curr s h) (first, same, refl)
