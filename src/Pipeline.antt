-- ===== src/Pipeline.antt =====
-- fma-common/pipeline.h, class `PipelineStage`. A method is what it does under the mutex, and may have to
-- wait. The thread pool runs the tasks that it was given in any order: a task that is running may end at
-- any time, by `run_task`. An iterator of the list is the number of its task, in the order of the pushes.
-- The next stage accepts what it is given, and the function returns.
pub mod Queue
pub mod Order
pub mod Progress
pub mod Liveness
pub mod Multiset
mod Tests
use fma_common.Common.{
  ℕ, zero, suc, ◌+◌, ◌%◌, ◌^◌, ◌≡◌, max, Bool, true, false, not, ◌&&◌, Option, none, some, List, [],
  ◌∷◌, ◌++◌, leb, ◌==◌, if◌then◌else◌, length,
}

pub data TaskState : Type 0 where
  new_task running finished : TaskState

pub record TaskInstance (A B : Type 0) : Type 0 where
  pub id : ℕ
  pub input : A
  pub output : Option B
  pub state : TaskState

pub record PipelineStage (A B : Type 0) : Type 0 where
  pub input_buffer : List (TaskInstance A B)
  pub next_id : ℕ
  pub seq_num : ℕ
  pub kill_switch : Bool
  -- the tasks that the thread pool was given, with their sequence numbers
  pub thread_pool : List (ℕ × ℕ)
  -- what was pushed to the next stage
  pub next_stage : List B

-- The arguments of the constructor.
pub record Settings (A B : Type 0) : Type 0 where
  pub func : A → B
  pub max_active_tasks : ℕ
  pub input_buffer_size : ℕ
  pub out_of_order : Bool

-- A method returns, or has to wait.
pub data Attempt {ℓ} (A : Type ℓ) : Type ℓ where
  returns : A → Attempt A
  waits : Attempt A

unfoldable pub is_finished : TaskState → Bool
is_finished new_task = false
is_finished running = false
is_finished finished = true

unfoldable pub is_running : TaskState → Bool
is_running new_task = false
is_running running = true
is_running finished = false

module _ {A B : Type 0} where
  pub empty_stage : PipelineStage A B
  empty_stage = record {
    input_buffer = [];
    next_id = 0;
    seq_num = 0;
    kill_switch = false;
    thread_pool = [];
    next_stage = [];
  }

  pub find_task : ℕ → List (TaskInstance A B) → Option (TaskInstance A B)
  find_task id [] = none
  find_task id (t ∷ ts) = if t.id == id then some t else find_task id ts

  pub erase_task : ℕ → List (TaskInstance A B) → List (TaskInstance A B)
  erase_task id [] = []
  erase_task id (t ∷ ts) = if t.id == id then ts else t ∷ erase_task id ts

  -- `OutputToNextStage`
  pub output_to_next_stage : Bool → List B → TaskInstance A B → List B
  output_to_next_stage kill outs t = elim t.output [
    | none ↦ outs
    | some b ↦ if kill then outs else outs ++ b ∷ []
  ]

  -- The loop that retires the tasks at the front.
  pub retire_front : Bool → List (TaskInstance A B) → List B → List (TaskInstance A B) × List B
  unfolding is_finished
  retire_front kill [] outs = ([], outs)
  retire_front kill (t ∷ ts) outs =
      let rest = retire_front kill ts (output_to_next_stage kill outs t) in
      if is_finished t.state then rest else (t ∷ ts, outs)

  -- The body of the loop that starts tasks: the task, the next sequence number, and what the pool gets.
  pub start_task : Bool → ℕ → TaskInstance A B → TaskInstance A B × ℕ × List (ℕ × ℕ)
  start_task kill seq t = elim t.state [
    | new_task ↦
        if kill
        then (record t { state = finished }, seq, [])
        else (record t { state = running }, (seq + 1) % 2 ^ 64, (seq, t.id) ∷ [])
    | running ↦ (t, seq, [])
    | finished ↦ (t, seq, [])
  ]

  pub start_tasks :
      Bool → ℕ → ℕ → List (TaskInstance A B) → List (TaskInstance A B) × ℕ × List (ℕ × ℕ)
  unfolding start_task
  start_tasks kill left seq [] = ([], seq, [])
  start_tasks kill zero seq (t ∷ ts) = (t ∷ ts, seq, [])
  start_tasks kill (suc left) seq (t ∷ ts) =
      let (t', seq', jobs) = start_task kill seq t in
      let (ts', seq'', jobs') = start_tasks kill left seq' ts in (t' ∷ ts', seq'', jobs ++ jobs')

  -- The effect of `RunTask` on the task: the function has run, and the task is finished.
  pub finish_task : (A → B) → ℕ → List (TaskInstance A B) → List (TaskInstance A B)
  finish_task func id [] = []
  finish_task func id (t ∷ ts) =
      if t.id == id
      then record t { output = some (func t.input); state = finished } ∷ ts
      else t ∷ finish_task func id ts

  pub has_running : ℕ → List (TaskInstance A B) → Bool
  unfolding is_running
  has_running id [] = false
  has_running id (t ∷ ts) = if t.id == id then is_running t.state else has_running id ts

  pub wait_till_clear : PipelineStage A B → Attempt (Unit {0})
  wait_till_clear s =
      if s.kill_switch then returns tt else if length s.input_buffer == 0 then returns tt else waits

  pub is_clear : PipelineStage A B → Bool
  is_clear s = length s.input_buffer == 0

  -- `Stop` on a thread pool of others; an own one runs what it was given and ends.
  pub stop : PipelineStage A B → PipelineStage A B
  stop s = record s { kill_switch = true }

  module _ (c : Settings A B) where
    -- The first half of `CheckQueueNolock`; `none` is the end of the list.
    pub retire : Option ℕ → PipelineStage A B → PipelineStage A B
    retire curr s =
        let front = retire_front s.kill_switch s.input_buffer s.next_stage in
        let in_order = record s { input_buffer = front.0; next_stage = front.1 } in
        elim curr [
          | none ↦ in_order
          | some id ↦ elim (find_task id s.input_buffer) [
            | none ↦ in_order
            | some t ↦
                if c.out_of_order && is_finished t.state
                then record s {
                  input_buffer = erase_task id s.input_buffer;
                  next_stage = output_to_next_stage s.kill_switch s.next_stage t;
                }
                else in_order
          ]
        ]

    -- The second half.
    pub start_more : PipelineStage A B → PipelineStage A B
    start_more s =
        let (ts, seq, jobs) =
          start_tasks s.kill_switch (max c.max_active_tasks 1) s.seq_num s.input_buffer in
        record s { input_buffer = ts; seq_num = seq; thread_pool = s.thread_pool ++ jobs }

    pub check_queue_nolock : Option ℕ → PipelineStage A B → PipelineStage A B
    check_queue_nolock curr s = start_more (retire curr s)

    pub push : PipelineStage A B → A → Attempt (Bool × PipelineStage A B)
    push s d =
        let t : TaskInstance A B = record {
          id = s.next_id;
          input = d;
          output = none;
          state = new_task;
        } in
        if leb c.input_buffer_size (length s.input_buffer) && not s.kill_switch
        then waits
        else if s.kill_switch
        then returns (false, s)
        else returns (
          true,
          check_queue_nolock none
              (record s { input_buffer = s.input_buffer ++ t ∷ []; next_id = s.next_id + 1 }),
        )

    -- The end of `RunTask`, under the mutex.
    pub run_task : ℕ → PipelineStage A B → PipelineStage A B
    run_task id s =
        check_queue_nolock (some id)
          (record s { input_buffer = finish_task c.func id s.input_buffer })

    -- The states that a stage reaches, with the inputs that it accepted, in their order.
    pub data Runs : List A → PipelineStage A B → Type 0 where
      start : Runs [] empty_stage
      pushed :
          {ins : List A} {s t : PipelineStage A B} (d : A)
          → Runs ins s
          → push s d ≡ returns (true, t)
          → Runs (ins ++ d ∷ []) t
      refused :
          {ins : List A} {s t : PipelineStage A B} (d : A)
          → Runs ins s
          → push s d ≡ returns (false, t)
          → Runs ins t
      ran :
          {ins : List A} {s : PipelineStage A B} (id : ℕ)
          → Runs ins s
          → has_running id s.input_buffer ≡ true
          → Runs ins (run_task id s)
      stopped : {ins : List A} {s : PipelineStage A B} → Runs ins s → Runs ins (stop s)
