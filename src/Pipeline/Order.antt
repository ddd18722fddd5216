-- ===== src/Pipeline/Order.antt =====
-- The order of the outputs of a `PipelineStage` (fma-common/pipeline.h) that keeps the order of its inputs.
use fma_common.Common.{
  ℕ, ◌+◌, ◌≡◌, inl, inr, refl, sym, ap, ◌∙◌, max, Bool, true, false, Option, none, some, List, [],
  ◌∷◌, ◌++◌, arith, append_assoc, append-nil, map, map-append, Option-cases,
}
use fma_common.Pipeline.{
  new_task, TaskInstance, PipelineStage, Settings, Attempt, returns, waits, is_finished,
  empty_stage, retire_front, find_task, stop, retire, start_more, check_queue_nolock, push,
  run_task, Runs, start, pushed, refused, ran, stopped, wait_till_clear,
}
use fma_common.Pipeline.Queue.{
  results, Done, Done-append, results-append, retire_front_lem, retire_front_killed,
  start_tasks_lem, finish_task_lem,
}

module _ {A B : Type 0} (c : Settings A B) where
  -- A push that was accepted: the stage was neither full nor stopped.
  pub push-true :
      (s t : PipelineStage A B) (d : A)
      → push c s d ≡ returns (true, t)
      → (s.kill_switch ≡ false)
        × (t
            ≡ check_queue_nolock c none (record s {
              input_buffer =
                  s.input_buffer
                  ++ record { id = s.next_id; input = d; output = none; state = new_task } ∷ [];
              next_id = s.next_id + 1;
            }))
  unfolding push
  push-true s t d h = ground arith

  pub push-false : (s t : PipelineStage A B) (d : A) → push c s d ≡ returns (false, t) → t ≡ s
  unfolding push
  push-false s t d h = ground arith

  -- Without `out_of_order` the tasks are retired at the front.
  pub retire_in_order :
      (curr : Option ℕ) (s : PipelineStage A B)
      → c.out_of_order ≡ false
      → retire c curr s ≡ record s {
        input_buffer = (retire_front s.kill_switch s.input_buffer s.next_stage).0;
        next_stage = (retire_front s.kill_switch s.input_buffer s.next_stage).1;
      }
  unfolding retire
  retire_in_order none s h = refl
  retire_in_order (some id) s h = elim (Option-cases (find_task id s.input_buffer)) [
    | inl e ↦ rw (e, retire) refl
    | inr (t, e) ↦ rw (e, retire, h) refl
  ]

  pub record IsOrdered (ins : List A) (s : PipelineStage A B) : Type 0 where
    pub rest : List B
    pub prefix : s.next_stage ++ rest ≡ map c.func ins
    pub whole :
        s.kill_switch ≡ false → s.next_stage ++ results c.func s.input_buffer ≡ map c.func ins
    pub done : s.kill_switch ≡ false → Done c.func s.input_buffer

  check_queue-IsOrdered :
      (curr : Option ℕ) (ins : List A) (s : PipelineStage A B)
      → c.out_of_order ≡ false
      → IsOrdered ins s
      → IsOrdered ins (check_queue_nolock c curr s)
  unfolding check_queue_nolock
  check_queue-IsOrdered curr ins s h v = rw (retire_in_order curr s h) (by_kill s.kill_switch refl)
    where
      by_kill :
          (kill : Bool)
          → s.kill_switch ≡ kill
          → IsOrdered ins (
              start_more c (record s {
                input_buffer = (retire_front s.kill_switch s.input_buffer s.next_stage).0;
                next_stage = (retire_front s.kill_switch s.input_buffer s.next_stage).1;
              }))
      by_kill true e =
          unfold start_more in
          record {
            rest = v.rest;
            prefix = rw (e, retire_front_killed s.input_buffer s.next_stage) v.prefix;
            whole = λ k. absurd (cc);
            done = λ k. absurd (cc);
          }
      by_kill false e =
          let ready : Done c.func s.input_buffer = v.done e in
          let (same, done) = retire_front_lem c.func s.input_buffer s.next_stage ready in
          let left = (retire_front false s.input_buffer s.next_stage).0 in
          let (later, done') =
            start_tasks_lem c.func (max c.max_active_tasks 1) s.seq_num left done in
          let all =
            ap (λ l. (retire_front false s.input_buffer s.next_stage).1 ++ l) later
            ∙ same
            ∙ v.whole e in
          unfold start_more in
          record {
            rest = results c.func left;
            prefix = rw e (same ∙ v.whole e);
            whole = λ _. rw e all;
            done = λ _. rw e done';
          }

  -- The new task waits behind the others.
  waiting :
      (ins : List A) (s : PipelineStage A B) (d : A)
      → s.kill_switch ≡ false
      → IsOrdered ins s
      → IsOrdered (ins ++ d ∷ []) (record s {
        input_buffer =
            s.input_buffer
            ++ record { id = s.next_id; input = d; output = none; state = new_task } ∷ [];
        next_id = s.next_id + 1;
      })
  unfolding is_finished
  waiting ins s d live v =
      let more : s.next_stage ++ (results c.func s.input_buffer ++ c.func d ∷ [])
          ≡ map c.func (ins ++ d ∷ []) =
        sym (append_assoc s.next_stage (results c.func s.input_buffer) (c.func d ∷ []))
        ∙ ap (λ l. l ++ c.func d ∷ []) (v.whole live)
        ∙ sym (map-append c.func ins (d ∷ [])) in
      let same =
        results-append c.func s.input_buffer
          (record { id = s.next_id; input = d; output = none; state = new_task } ∷ []) in
      record {
        rest = results c.func s.input_buffer ++ c.func d ∷ [];
        prefix = more;
        whole = λ _. ap (λ l. s.next_stage ++ l) same ∙ more;
        done = λ k.
            Done-append c.func s.input_buffer
              (record { id = s.next_id; input = d; output = none; state = new_task } ∷ [])
              (v.done k) ((λ e. absurd (cc)), tt);
      }

  start-IsOrdered : IsOrdered [] (empty_stage {A = A} {B = B})
  unfolding empty_stage
  start-IsOrdered = record { rest = []; prefix = refl; whole = λ _. refl; done = λ _. tt }

  run_task-IsOrdered :
      (id : ℕ) (ins : List A) (s : PipelineStage A B)
      → c.out_of_order ≡ false
      → IsOrdered ins s
      → IsOrdered ins (run_task c id s)
  unfolding run_task
  run_task-IsOrdered id ins s h v = check_queue-IsOrdered (some id) ins _ h (record {
    rest = v.rest;
    prefix = v.prefix;
    whole = λ k.
        ap (λ l. s.next_stage ++ l) (finish_task_lem c.func id s.input_buffer (v.done k)).0
        ∙ v.whole k;
    done = λ k. (finish_task_lem c.func id s.input_buffer (v.done k)).1;
  })

  stop-IsOrdered : (ins : List A) (s : PipelineStage A B) → IsOrdered ins s → IsOrdered ins (stop s)
  unfolding stop
  stop-IsOrdered ins s v = record {
    rest = v.rest;
    prefix = v.prefix;
    whole = λ k. absurd (cc);
    done = λ k. absurd (cc);
  }

  Runs-IsOrdered :
      {ins : List A} {s : PipelineStage A B}
      → c.out_of_order ≡ false
      → Runs c ins s
      → IsOrdered ins s
  Runs-IsOrdered h start = start-IsOrdered
  Runs-IsOrdered h (pushed {ins = ins} {s = s} {t = t} d r e) =
      let (live, same) = push-true s t d e in
      rw same
        (check_queue-IsOrdered none (ins ++ d ∷ []) _ h (waiting ins s d live (Runs-IsOrdered h r)))
  Runs-IsOrdered h (refused {s = s} {t = t} d r e) = rw (push-false s t d e) (Runs-IsOrdered h r)
  Runs-IsOrdered h (ran {ins = ins} {s = s} id r e) =
      run_task-IsOrdered id ins s h (Runs-IsOrdered h r)
  Runs-IsOrdered h (stopped {ins = ins} {s = s} r) = stop-IsOrdered ins s (Runs-IsOrdered h r)

  -- `WaitTillClear` waits for the tasks in the buffer.
  pub wait_till_clear-empty :
      (s : PipelineStage A B) (l : List (TaskInstance A B))
      → s.input_buffer ≡ l
      → s.kill_switch ≡ false
      → wait_till_clear s ≡ returns tt
      → l ≡ []
  unfolding wait_till_clear
  wait_till_clear-empty s [] e live clear = refl
  wait_till_clear-empty s (t ∷ ts) e live clear =
      let busy : wait_till_clear s ≡ waits = rw (wait_till_clear, live, e) (ground arith) in
      let clash : ◌≡◌ {A = Attempt (Unit {0})} waits (returns tt) = sym busy ∙ clear in absurd (cc)

  -- In every state that a stage with `out_of_order_` unset reaches, stopped or not and in whatever order
  -- its tasks end: what it pushed to the next stage is what the function gives on the first inputs that
  -- it accepted, in their order.
  pub pipeline_prefix :
      {ins : List A} {s : PipelineStage A B}
      → c.out_of_order ≡ false
      → Runs c ins s
      → (rest : List B) × (s.next_stage ++ rest ≡ map c.func ins)
  pipeline_prefix h r = let v = Runs-IsOrdered h r in (v.rest, v.prefix)

  -- When `WaitTillClear` returns on a stage with `out_of_order_` unset that is not stopped, the next stage
  -- has what the function gives on every input that was accepted, in their order.
  pub pipeline_order :
      {ins : List A} {s : PipelineStage A B}
      → c.out_of_order ≡ false
      → Runs c ins s
      → s.kill_switch ≡ false
      → wait_till_clear s ≡ returns tt
      → s.next_stage ≡ map c.func ins
  pipeline_order {s = s} h r live clear =
      let none_left = wait_till_clear-empty s s.input_buffer refl live clear in
      sym (append-nil s.next_stage)
      ∙ ap (λ l. s.next_stage ++ results c.func l) (sym none_left)
      ∙ (Runs-IsOrdered h r).whole live
