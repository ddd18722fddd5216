-- ===== src/Pipeline/Multiset.antt =====
-- Every input of a `PipelineStage` (fma-common/pipeline.h) that is not stopped is output once, whether the
-- order is kept or not.
use mathlib.Core.List.Perm
use mathlib.Core.List.{Perm}
use fma_common.Common.{
  ℕ, ◌≡◌, ◌⊎◌, inl, inr, refl, sym, ap, ◌∙◌, max, true, false, Option, none, some, List, [], ◌∷◌,
  ◌++◌, ◌==◌, append_assoc, append-nil, Bool-cases, map, map-append, Option-cases, subst,
}
use fma_common.Pipeline.{
  TaskInstance, new_task, PipelineStage, Settings, returns, is_finished, empty_stage, retire_front,
  find_task, erase_task, output_to_next_stage, retire, start_more, check_queue_nolock, push,
  run_task, Runs, start, pushed, refused, ran, stopped, wait_till_clear,
}
use fma_common.Pipeline.Queue.{
  results, Done, Done-append, results-append, retire_front_lem, start_tasks_lem, finish_task_lem,
  output_lem,
}
use fma_common.Pipeline.Order.{push-true, push-false}
use fma_common.Pipeline.Liveness.{run_task-kill, stop-kill, Drains, Drains-Runs, Drains-empty}

module _ {A B : Type 0} (c : Settings A B) where
  -- A task that is taken out of the list.
  erase_task_lem :
      (id : ℕ) (ts : List (TaskInstance A B)) (t : TaskInstance A B)
      → find_task id ts ≡ some t
      → Done c.func ts
      → Perm (results c.func ts) (c.func t.input ∷ results c.func (erase_task id ts))
        × Done c.func (erase_task id ts)
        × (is_finished t.state ≡ true → t.output ≡ some (c.func t.input))
  unfolding find_task erase_task
  erase_task_lem id [] t h done = absurd (cc)
  erase_task_lem id (u ∷ us) t h done = elim (Bool-cases (u.id == id)) [
    | inl e ↦
        let found : some u ≡ some t = rw e at h in
        let same : u ≡ t = cc in rw (erase_task, e, ← same) (Perm.refl _, done.1, done.0)
    | inr e ↦
        let found : find_task id us ≡ some t = rw e at h in
        let (perm, done', output) = erase_task_lem id us t found done.1 in
        rw (erase_task, e)
          (
            Perm.trans (Perm.cons (c.func u.input) perm)
                (Perm.swap (c.func t.input) (c.func u.input) (results c.func (erase_task id us))),
            (done.0, done'),
            output,
          )
  ]

  record IsCounted (ins : List A) (s : PipelineStage A B) : Type 0 where
    same : Perm (s.next_stage ++ results c.func s.input_buffer) (map c.func ins)
    done : Done c.func s.input_buffer

  at_front : PipelineStage A B → PipelineStage A B
  at_front s = record s {
    input_buffer = (retire_front s.kill_switch s.input_buffer s.next_stage).0;
    next_stage = (retire_front s.kill_switch s.input_buffer s.next_stage).1;
  }

  taken_out : ℕ → TaskInstance A B → PipelineStage A B → PipelineStage A B
  taken_out id t s = record s {
    input_buffer = erase_task id s.input_buffer;
    next_stage = output_to_next_stage s.kill_switch s.next_stage t;
  }

  retire-cases :
      (curr : Option ℕ) (s : PipelineStage A B)
      → (retire c curr s ≡ at_front s)
        ⊎ ((id : ℕ) × (t : TaskInstance A B) × (find_task id s.input_buffer ≡ some t)
            × (is_finished t.state ≡ true)
            × (retire c curr s ≡ taken_out id t s))
  unfolding retire at_front taken_out
  retire-cases none s = inl refl
  retire-cases (some id) s = elim (Option-cases (find_task id s.input_buffer)) [
    | inl e ↦ inl (rw (e, retire) refl)
    | inr (t, e) ↦ elim (Bool-cases (is_finished t.state)) [
      | inl f ↦ elim (Bool-cases c.out_of_order) [
        | inl o ↦ inr (id, t, e, f, rw (e, retire, o, f) refl)
        | inr o ↦ inl (rw (e, retire, o) refl)
      ]
      | inr f ↦ elim (Bool-cases c.out_of_order) [
        | inl o ↦ inl (rw (e, retire, o, f) refl)
        | inr o ↦ inl (rw (e, retire, o) refl)
      ]
    ]
  ]

  at_front-IsCounted :
      (ins : List A) (s : PipelineStage A B)
      → s.kill_switch ≡ false
      → IsCounted ins s
      → IsCounted ins (at_front s)
  unfolding at_front
  at_front-IsCounted ins s live v =
      let (same, done) = retire_front_lem c.func s.input_buffer s.next_stage v.done in
      record { same = rw (live, same) v.same; done = rw live done }

  taken_out-IsCounted :
      (id : ℕ) (t : TaskInstance A B) (ins : List A) (s : PipelineStage A B)
      → s.kill_switch ≡ false
      → find_task id s.input_buffer ≡ some t
      → is_finished t.state ≡ true
      → IsCounted ins s
      → IsCounted ins (taken_out id t s)
  unfolding taken_out
  taken_out-IsCounted id t ins s live found finished v =
      let (perm, done, output) = erase_task_lem id s.input_buffer t found v.done in
      record {
        same =
            rw
              (
                live,
                output_lem t s.next_stage (c.func t.input) (output finished),
                append_assoc s.next_stage (c.func t.input ∷ [])
                    (results c.func (erase_task id s.input_buffer)),
              )
              (Perm.trans (Perm.append_left s.next_stage (Perm.symm perm)) v.same);
        done = done;
      }

  check_queue-IsCounted :
      (curr : Option ℕ) (ins : List A) (s : PipelineStage A B)
      → s.kill_switch ≡ false
      → IsCounted ins s
      → IsCounted ins (check_queue_nolock c curr s)
  unfolding check_queue_nolock
  check_queue-IsCounted curr ins s live v = elim (retire-cases curr s) [
    | inl e ↦
        rw e (started (at_front s) (unfold at_front in live) (at_front-IsCounted ins s live v))
    | inr (id, t, found, finished, e) ↦ rw e (
        started (taken_out id t s) (unfold taken_out in live)
          (taken_out-IsCounted id t ins s live found finished v))
  ]
    where
      started :
          (t : PipelineStage A B)
          → t.kill_switch ≡ false
          → IsCounted ins t
          → IsCounted ins (start_more c t)
      started t live v =
          unfold start_more in
          let (same, done) =
            start_tasks_lem c.func (max c.max_active_tasks 1) t.seq_num t.input_buffer v.done in
          record { same = rw (live, same) v.same; done = rw live done }

  start-IsCounted : IsCounted [] (empty_stage {A = A} {B = B})
  unfolding empty_stage
  start-IsCounted = record { same = Perm.refl []; done = tt }

  push-IsCounted :
      (ins : List A) (s t : PipelineStage A B) (d : A)
      → push c s d ≡ returns (true, t)
      → IsCounted ins s
      → IsCounted (ins ++ d ∷ []) t
  push-IsCounted ins s t d e v =
      let (live, same) = push-true c s t d e in
      let new : TaskInstance A B = record {
        id = s.next_id;
        input = d;
        output = none;
        state = new_task;
      } in
      let outs = append_assoc s.next_stage (results c.func s.input_buffer) (c.func d ∷ []) in
      rw same (
        check_queue-IsCounted none (ins ++ d ∷ []) _ live (record {
          same =
              rw
                (
                  results-append c.func s.input_buffer (new ∷ []),
                  map-append c.func ins (d ∷ []),
                  ← outs,
                )
                (Perm.append v.same (Perm.refl (c.func d ∷ [])));
          done = Done-append c.func s.input_buffer (new ∷ []) v.done (new_unfinished, tt);
        }))
    where
      new_unfinished : is_finished new_task ≡ true → none ≡ some (c.func d)
      new_unfinished e = unfold is_finished in absurd (cc)

  run_task-IsCounted :
      (id : ℕ) (ins : List A) (s : PipelineStage A B)
      → s.kill_switch ≡ false
      → IsCounted ins s
      → IsCounted ins (run_task c id s)
  unfolding run_task
  run_task-IsCounted id ins s live v =
      let (same, done) = finish_task_lem c.func id s.input_buffer v.done in
      check_queue-IsCounted (some id) ins _ live (record { same = rw same v.same; done = done })

  Runs-IsCounted :
      {ins : List A} {s : PipelineStage A B}
      → Runs c ins s
      → s.kill_switch ≡ false
      → IsCounted ins s
  Runs-IsCounted start live = start-IsCounted
  Runs-IsCounted (pushed {ins = ins} {s = s} {t = t} d r e) live =
      push-IsCounted ins s t d e (Runs-IsCounted r (push-true c s t d e).0)
  Runs-IsCounted (refused {ins = ins} {s = s} {t = t} d r e) live =
      let same = push-false c s t d e in
      subst (IsCounted ins) (sym same)
        (Runs-IsCounted r (ap (λ (u : PipelineStage A B). u.kill_switch) (sym same) ∙ live))
  Runs-IsCounted (ran {ins = ins} {s = s} id r e) live =
      let before = sym (run_task-kill c id s) ∙ live in
      run_task-IsCounted id ins s before (Runs-IsCounted r before)
  Runs-IsCounted (stopped {s = s} r) live = absurd (stop-kill c s live)

  -- From every state that a stage reaches without being stopped, whether it keeps the order or not,
  -- tasks that end, with no more pushes, lead to a state in which `WaitTillClear` returns, and the next
  -- stage has then what the function gives on every input that was accepted, each once.
  pub pipeline_clears :
      {ins : List A} {s : PipelineStage A B}
      → Runs c ins s
      → s.kill_switch ≡ false
      → (u : PipelineStage A B) × Drains c s u
        × (wait_till_clear u ≡ returns tt)
        × Perm u.next_stage (map c.func ins)
  pipeline_clears {ins = ins} r live =
      let (u, d, live', empty) = Drains-empty c r live in
      let clear : wait_till_clear u ≡ returns tt =
        unfold wait_till_clear in rw (wait_till_clear, live', empty) refl in
      let all = (Runs-IsCounted (Drains-Runs c r d) live').same in
      (
        u,
        d,
        clear,
        subst (λ l. Perm l (map c.func ins))
            (ap (λ l. u.next_stage ++ results c.func l) empty ∙ append-nil u.next_stage) all,
      )
