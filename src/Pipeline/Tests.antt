-- ===== src/Pipeline/Tests.antt =====
-- Runs of a `PipelineStage` (fma-common/pipeline.h).
use fma_common.Common.{ℕ, ◌*◌, ◌≡◌, refl, Bool, false, List, [], ◌∷◌, ◌++◌}
use fma_common.Pipeline.{
  PipelineStage, Settings, Attempt, returns, waits, empty_stage, push, run_task, Runs, start,
  pushed, ran, has_running, wait_till_clear, check_queue_nolock, retire, start_more, retire_front,
  start_tasks, start_task, finish_task, find_task, output_to_next_stage, is_finished, is_running,
}
use fma_common.Pipeline.Order.{pipeline_prefix, pipeline_order}
use fma_common.Pipeline.Liveness.{Drains}
use fma_common.Pipeline.Multiset.{pipeline_clears}
use mathlib.Core.List.{Perm}

-- Two tasks at a time, each doubling its number, and a buffer of three.
abbrev doubling : Settings ℕ ℕ
doubling = record {
  func = λ n. n * 2;
  max_active_tasks = 2;
  input_buffer_size = 3;
  out_of_order = false;
}

abbrev accepted : Attempt (Bool × PipelineStage ℕ ℕ) → PipelineStage ℕ ℕ
accepted (returns r) = r.1
accepted waits = empty_stage

abbrev one_demo : PipelineStage ℕ ℕ
one_demo = accepted (push doubling empty_stage 3)

abbrev two_demo : PipelineStage ℕ ℕ
two_demo = accepted (push doubling one_demo 4)

-- The second task ends first.
abbrev crossed_demo : PipelineStage ℕ ℕ
crossed_demo = run_task doubling 1 two_demo

one-Runs : Runs doubling (3 ∷ []) one_demo
unfolding push empty_stage check_queue_nolock retire start_more retire_front start_tasks start_task
one-Runs = pushed 3 start refl

two-Runs : Runs doubling (3 ∷ 4 ∷ []) two_demo
unfolding push empty_stage check_queue_nolock retire start_more retire_front start_tasks start_task
    is_finished
two-Runs = pushed 4 one-Runs refl

crossed-Runs : Runs doubling (3 ∷ 4 ∷ []) crossed_demo
unfolding push empty_stage check_queue_nolock retire start_more retire_front start_tasks start_task
    is_finished has_running is_running
crossed-Runs = ran 1 two-Runs refl

crossed_demo-outputs : crossed_demo.next_stage ≡ []
unfolding run_task finish_task find_task push empty_stage check_queue_nolock retire start_more
    retire_front start_tasks start_task is_finished output_to_next_stage
crossed_demo-outputs = refl

ended_demo-outputs : (run_task doubling 0 crossed_demo).next_stage ≡ 6 ∷ 8 ∷ []
unfolding run_task finish_task find_task push empty_stage check_queue_nolock retire start_more
    retire_front start_tasks start_task is_finished output_to_next_stage
ended_demo-outputs = refl

pipeline_prefix_example : (rest : List ℕ) × (crossed_demo.next_stage ++ rest ≡ 6 ∷ 8 ∷ [])
pipeline_prefix_example = pipeline_prefix doubling refl crossed-Runs

abbrev ended_demo : PipelineStage ℕ ℕ
ended_demo = run_task doubling 0 crossed_demo

ended-Runs : Runs doubling (3 ∷ 4 ∷ []) ended_demo
unfolding run_task finish_task find_task push empty_stage check_queue_nolock retire start_more
    retire_front start_tasks start_task is_finished has_running is_running
ended-Runs = ran 0 crossed-Runs refl

pipeline_order_example : ended_demo.next_stage ≡ 6 ∷ 8 ∷ []
unfolding run_task finish_task find_task push empty_stage check_queue_nolock retire start_more
    retire_front start_tasks start_task is_finished wait_till_clear
pipeline_order_example = pipeline_order doubling refl ended-Runs refl refl

pipeline_clears_example :
    (u : PipelineStage ℕ ℕ) × Drains doubling crossed_demo u
    × (wait_till_clear u ≡ returns tt)
    × Perm u.next_stage (6 ∷ 8 ∷ [])
unfolding run_task push empty_stage check_queue_nolock retire start_more find_task finish_task
    start_tasks retire_front
pipeline_clears_example = pipeline_clears doubling crossed-Runs refl
