-- ===== src/Pipeline/Queue.antt =====
-- The loops of `PipelineStage` (fma-common/pipeline.h) over its list of tasks.
use fma_common.Common.{
  ℕ, zero, suc, ◌≡◌, inl, inr, refl, sym, ap, ◌∙◌, true, false, some, List, [], ◌∷◌, ◌++◌, ◌==◌,
  arith, append_assoc, Bool-cases,
}
use fma_common.Pipeline.{
  TaskInstance, is_finished, output_to_next_stage, retire_front, start_task, start_tasks,
  finish_task,
}

module _ {A B : Type 0} where
  -- What the tasks will give.
  abbrev pub results : (A → B) → List (TaskInstance A B) → List B
  results func [] = []
  results func (t ∷ ts) = func t.input ∷ results func ts

  -- A finished task has its output.
  abbrev pub Done : (A → B) → List (TaskInstance A B) → Type 0
  Done func [] = Unit
  Done func (t ∷ ts) = (is_finished t.state ≡ true → t.output ≡ some (func t.input)) × Done func ts

  pub Done-append :
      (func : A → B) (ts us : List (TaskInstance A B))
      → Done func ts
      → Done func us
      → Done func (ts ++ us)
  Done-append func [] us h k = k
  Done-append func (t ∷ ts) us h k = (h.0, Done-append func ts us h.1 k)

  pub results-append :
      (func : A → B) (ts us : List (TaskInstance A B))
      → results func (ts ++ us) ≡ results func ts ++ results func us
  results-append func [] us = refl
  results-append func (t ∷ ts) us = ap (◌∷◌ (func t.input)) (results-append func ts us)

  pub output_lem :
      (t : TaskInstance A B) (outs : List B) (b : B)
      → t.output ≡ some b
      → output_to_next_stage false outs t ≡ outs ++ b ∷ []
  unfolding output_to_next_stage
  output_lem t outs b h = rw h refl

  output_killed : (t : TaskInstance A B) (outs : List B) → output_to_next_stage true outs t ≡ outs
  unfolding output_to_next_stage
  output_killed t outs = ground arith

  -- What was output and what the tasks will give stay the same, in their order.
  pub retire_front_lem :
      (func : A → B) (ts : List (TaskInstance A B)) (outs : List B)
      → Done func ts
      → ((retire_front false ts outs).1 ++ results func (retire_front false ts outs).0
          ≡ outs ++ results func ts)
        × Done func (retire_front false ts outs).0
  unfolding retire_front
  retire_front_lem func [] outs h = (refl, tt)
  retire_front_lem func (t ∷ ts) outs h = elim (Bool-cases (is_finished t.state)) [
    | inl e ↦
        let (same, done) = retire_front_lem func ts (outs ++ func t.input ∷ []) h.1 in
        rw (e, output_lem t outs (func t.input) (h.0 e))
          (same ∙ append_assoc outs (func t.input ∷ []) (results func ts), done)
    | inr e ↦ rw e (refl, h)
  ]

  pub retire_front_killed :
      (ts : List (TaskInstance A B)) (outs : List B) → (retire_front true ts outs).1 ≡ outs
  unfolding retire_front
  retire_front_killed [] outs = refl
  retire_front_killed (t ∷ ts) outs = elim (Bool-cases (is_finished t.state)) [
    | inl e ↦ rw (e, output_killed t outs) (retire_front_killed ts outs)
    | inr e ↦ rw e refl
  ]

  start_task_lem :
      (func : A → B) (seq : ℕ) (t : TaskInstance A B)
      → ((start_task false seq t).0.input ≡ t.input)
        × (is_finished (start_task false seq t).0.state ≡ is_finished t.state)
        × ((start_task false seq t).0.output ≡ t.output)
  unfolding start_task is_finished
  start_task_lem func seq t = ground arith

  pub start_tasks_lem :
      (func : A → B) (left seq : ℕ) (ts : List (TaskInstance A B))
      → Done func ts
      → (results func (start_tasks false left seq ts).0 ≡ results func ts)
        × Done func (start_tasks false left seq ts).0
  unfolding start_tasks
  start_tasks_lem func left seq [] h = (refl, tt)
  start_tasks_lem func zero seq (t ∷ ts) h = (refl, h)
  start_tasks_lem func (suc left) seq (t ∷ ts) h =
      let (same, state, output) = start_task_lem func seq t in
      let (rest, done) = start_tasks_lem func left (start_task false seq t).1 ts h.1 in
      (
        rw (same, rest) refl,
        ((λ e. output ∙ h.0 (sym state ∙ e) ∙ ap (λ x. some (func x)) (sym same)), done),
      )

  pub finish_task_lem :
      (func : A → B) (id : ℕ) (ts : List (TaskInstance A B))
      → Done func ts
      → (results func (finish_task func id ts) ≡ results func ts)
        × Done func (finish_task func id ts)
  unfolding finish_task
  finish_task_lem func id [] h = (refl, tt)
  finish_task_lem func id (t ∷ ts) h =
      let (rest, done) = finish_task_lem func id ts h.1 in
      elim (Bool-cases (t.id == id)) [
        | inl e ↦ rw e (refl, ((λ _. refl), h.1))
        | inr e ↦ rw (e, rest) (refl, (h.0, done))
      ]
