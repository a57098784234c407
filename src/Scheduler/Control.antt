-- ===== src/Scheduler/Control.antt =====
-- Blocking, deletion, the check of the stacks and sleeping, of core/scheduler.c.
use stm32_cli_os.Prelude.{
  ℕ, zero, suc, ◌+◌, Bool, true, false, ◌&&◌, not, Option, none, some, leb, ◌==◌, if◌then◌else◌,
  add32, put,
}
use stm32_cli_os.Memory.{load32}
use stm32_cli_os.Allocator.{null}
use stm32_cli_os.Scheduler.{
  System, Task, TaskReturn, is_unused, is_blocked, task_blocked, task_ready, task_zombie,
  stack_canary, same_task, set_state, yield_cpu, find_task, delete_success, delete_task_not_found,
  delete_is_idle, delete_is_current_task,
}

-- `task->state != TASK_UNUSED && !task->is_idle` guards the change to blocked.
abbrev pub block : System → ℕ → System
block s i =
    if not (is_unused (s.task_list i).state) && not (s.task_list i).is_idle
    then set_state s i task_blocked
    else s

unfoldable pub task_block : System → Option ℕ → System
task_block s none = s
task_block s (some i) = block s i

unfoldable pub task_unblock : System → Option ℕ → System
task_unblock s none = s
task_unblock s (some i) = if is_blocked (s.task_list i).state then set_state s i task_ready else s

unfoldable pub task_block_current : System → System
task_block_current s = elim (s.task_current) [ none ↦ s | some cur ↦ yield_cpu (block s cur) ]

-- The state becomes zombie, and the id 0.
abbrev pub make_zombie : System → ℕ → System
make_zombie s i = record s {
  task_list = put s.task_list i (record (s.task_list i) { state = task_zombie; task_id = 0 });
}

-- What follows the search for the id.
abbrev pub delete_found : System → Option ℕ → TaskReturn × System
delete_found s none = (delete_task_not_found, s)
delete_found s (some i) =
    if (s.task_list i).is_idle
    then (delete_is_idle, s)
    else if same_task i s.task_current
    then (delete_is_current_task, s)
    else (delete_success, make_zombie s i)

unfoldable pub task_delete : System → ℕ → TaskReturn × System
task_delete s task_id =
    delete_found s (find_task (λ t. t.task_id == task_id) s.task_list s.task_count 0)

-- The state when `task_exit` enters its endless loop of `yield_cpu`.
unfoldable pub task_exit : System → System
task_exit s = yield_cpu (elim (s.task_current) [ none ↦ s | some cur ↦ make_zombie s cur ])

-- A used slot whose stack lost its canary.
abbrev pub overflowed : System → ℕ → Bool
overflowed s i =
    let t = s.task_list i in
    not (is_unused t.state)
    && not (t.stack_ptr == null)
    && not (load32 s.heap.mem t.stack_ptr == stack_canary)

-- The loop of `task_check_stack_overflow`, with the rounds left: `current_task_overflow`.
unfoldable pub overflow_loop : ℕ → System → ℕ → Bool → Bool × System
overflow_loop zero s i flag = (flag, s)
overflow_loop (suc k) s i flag =
    let id = (s.task_list i).task_id in
    let flagged = overflow_loop k s (i + 1) true in
    let deleted = overflow_loop k (task_delete s id).1 (i + 1) flag in
    let rest = overflow_loop k s (i + 1) flag in
    if overflowed s i then (if same_task i s.task_current then flagged else deleted) else rest

unfoldable pub task_check_stack_overflow : System → System
task_check_stack_overflow s =
    let (flag, s') = overflow_loop s.task_count s 0 false in if flag then task_exit s' else s'

-- The two branches on `task_current`; `none` is the result -1.
abbrev pub sleep_from : System → ℕ → Option ℕ → Option System
sleep_from s ticks none = none
sleep_from s ticks (some cur) =
    let until = add32 s.systick_ticks ticks in
    let s' = record s {
      task_list = put s.task_list cur (record (s.task_list cur) { sleep_until_tick = until });
    } in
    some (yield_cpu (block s' cur))

unfoldable pub task_sleep_ticks : System → ℕ → Option System
task_sleep_ticks s ticks = if ticks == 0 then none else sleep_from s ticks s.task_current

-- The body of the loop of `scheduler_wake_sleeping_tasks`.
abbrev pub wake : ℕ → Task → Task
wake ticks t =
    if is_blocked t.state && not (t.sleep_until_tick == 0) && leb t.sleep_until_tick ticks
    then record t { state = task_ready; sleep_until_tick = 0 }
    else t

unfoldable pub wake_loop : ℕ → ℕ → (ℕ → Task) → ℕ → ℕ → Task
wake_loop ticks zero list i = list
wake_loop ticks (suc k) list i = wake_loop ticks k (put list i (wake ticks (list i))) (i + 1)

unfoldable pub scheduler_wake_sleeping_tasks : System → System
scheduler_wake_sleeping_tasks s = record s {
  task_list = wake_loop s.systick_ticks s.task_count s.task_list 0;
}
