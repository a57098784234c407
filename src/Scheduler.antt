-- ===== src/Scheduler.antt =====
-- core/scheduler.c in its dynamic allocation mode, and the part of core/context_switch.S that moves
-- the task pointers. A `task_t *` is the index of the task in `task_list`, `none` for `NULL`. The
-- critical sections make each function one step, and restore BASEPRI. The calls of the allocator
-- take its fuel, so what calls it returns `none` where that ran out.
pub mod Create
pub mod Control
pub mod Created
pub mod Roomy
pub mod RoundRobin
pub mod Chosen
pub mod Fair
pub mod Frame
pub mod Delete
pub mod Ticks
pub mod Sleep
pub mod Stranded
pub mod Compact
pub mod Reap
pub mod Rounds
pub mod Stacks
pub mod Collected
mod Tests
pub mod Collect
use stm32_cli_os.Prelude.{
  ℕ, zero, suc, ◌+◌, ◌%◌, Bool, true, false, ◌&&◌, ◌||◌, not, Option, none, some, leb, ltb, ◌==◌,
  if◌then◌else◌, add32, sub32, put,
}
use stm32_cli_os.Memory.{load32}
use stm32_cli_os.Allocator.{Heap, null}

pub data TaskState : Type 0 where
  task_unused task_ready task_running task_blocked task_zombie : TaskState

-- `state == TASK_UNUSED`, and so on.
abbrev pub is_unused : TaskState → Bool
is_unused task_unused = true
is_unused _ = false

abbrev pub is_ready : TaskState → Bool
is_ready task_ready = true
is_ready _ = false

abbrev pub is_running : TaskState → Bool
is_running task_running = true
is_running _ = false

abbrev pub is_blocked : TaskState → Bool
is_blocked task_blocked = true
is_blocked _ = false

abbrev pub is_zombie : TaskState → Bool
is_zombie task_zombie = true
is_zombie _ = false

pub data TaskReturn : Type 0 where
  delete_success delete_task_not_found delete_is_idle delete_is_current_task : TaskReturn

pub record Task : Type 0 where
  pub psp : ℕ
  pub sleep_until_tick : ℕ
  pub stack_ptr : ℕ
  pub stack_size : ℕ
  pub state : TaskState
  pub is_idle : Bool
  pub task_id : ℕ

-- A slot of zero bytes.
abbrev pub no_task : Task
no_task = record {
  psp = 0;
  sleep_until_tick = 0;
  stack_ptr = null;
  stack_size = 0;
  state = task_unused;
  is_idle = false;
  task_id = 0;
}

abbrev pub max_tasks : ℕ
max_tasks = 58

abbrev pub stack_canary : ℕ
stack_canary = 3735928559

-- The globals and the statics, the heap that holds the stacks, the tick counter and the pending
-- bit of the context switch.
pub record System : Type 0 where
  pub heap : Heap
  pub task_list : ℕ → Task
  pub task_current : Option ℕ
  pub task_next : Option ℕ
  pub idle_task : Option ℕ
  pub task_count : ℕ
  pub task_current_index : ℕ
  pub next_task_id : ℕ
  pub systick_ticks : ℕ
  pub pend_sv : Bool

-- `a == b` on pointers to tasks.
abbrev pub same_task : ℕ → Option ℕ → Bool
same_task i none = false
same_task i (some j) = i == j

abbrev pub set_state : System → ℕ → TaskState → System
set_state s i state = record s {
  task_list = put s.task_list i (record (s.task_list i) { state = state });
}

unfoldable pub yield_cpu : System → System
yield_cpu s = record s { pend_sv = true }

unfoldable pub scheduler_init : System → System
scheduler_init s = record s {
  task_list = λ _. no_task;
  task_current = none;
  task_next = none;
  idle_task = none;
  task_count = 0;
  task_current_index = 0;
  next_task_id = 0;
}

-- `for (i ...; i < task_count; ++i) if (test(task_list[i])) break`, with the rounds left: the index
-- at the `break`.
unfoldable pub find_task : (Task → Bool) → (ℕ → Task) → ℕ → ℕ → Option ℕ
find_task test list zero i = none
find_task test list (suc k) i =
    let rest = find_task test list k (i + 1) in if test (list i) then some i else rest

-- The condition of the round-robin loop.
abbrev pub runnable : Task → Bool
runnable t = is_ready t.state && not t.is_idle && t.sleep_until_tick == 0

-- The round-robin loop, with the rounds left.
unfoldable pub round_robin : (ℕ → Task) → ℕ → ℕ → ℕ → Option ℕ
round_robin list count zero next = none
round_robin list count (suc k) next =
    let rest = round_robin list count k ((next + 1) % count) in
    if runnable (list next) then some next else rest

-- `task_next = &task_list[i]; task_next->state = TASK_RUNNING; task_current_index = i`.
abbrev pub run_task : System → ℕ → System
run_task s i = record (set_state s i task_running) { task_next = some i; task_current_index = i }

-- A running task goes back to ready.
abbrev pub preempt : System → ℕ → System
preempt s cur = if is_running (s.task_list cur).state then set_state s cur task_ready else s

-- All tasks are non-ready: whatever ran last stays.
abbrev pub stay : System → System
stay s = record (set_state s s.task_current_index task_running) {
  task_next = some s.task_current_index;
}

-- What follows the loop: the idle task if it is ready.
abbrev pub idle_or_stay : System → Option ℕ → System
idle_or_stay s none = stay s
idle_or_stay s (some i) =
    if is_ready (s.task_list i).state
    then record (set_state s i task_running) {
      task_next = some i;
      task_current_index = if ltb i s.task_count then i else s.task_current_index;
    }
    else stay s

-- The outcome of the loop.
abbrev pub dispatch : System → Option ℕ → System
dispatch s none = idle_or_stay s s.idle_task
dispatch s (some i) = run_task s i

unfoldable pub choose : System → System
choose s =
    let next = (s.task_current_index + 1) % s.task_count in
    dispatch s (round_robin s.task_list s.task_count s.task_count next)

-- The two branches on `task_current`.
abbrev pub schedule_from : System → Option ℕ → System
schedule_from s none = record (set_state s 0 task_running) {
  task_current = some 0;
  task_next = some 0;
  task_current_index = 0;
}
schedule_from s (some cur) = choose (preempt s cur)

unfoldable pub schedule_next_task : System → System
schedule_next_task s = if s.task_count == 0 then s else schedule_from s s.task_current

-- `task_current->psp = psp`, with the context switch no longer pending.
abbrev pub save_context : System → ℕ → ℕ → System
save_context s psp cur = record s {
  task_list = put s.task_list cur (record (s.task_list cur) { psp = psp });
  pend_sv = false;
}

-- `task_current = task_next`.
abbrev pub set_current : System → System
set_current s = record s { task_current = s.task_next }

-- `PendSV_Handler` once a task has been started: `psp` is the process stack pointer after the
-- registers are stored. It is modelled only with a current task: with none, the code stores the
-- stack pointer through `NULL` and goes on with a `NULL` task, and the function here changes nothing.
abbrev pub switch_from : System → ℕ → Option ℕ → System
switch_from s psp none = s
switch_from s psp (some cur) = set_current (schedule_next_task (save_context s psp cur))

unfoldable pub pend_sv_handler : System → ℕ → System
pend_sv_handler s psp = switch_from s psp s.task_current
