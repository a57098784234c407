-- ===== src/Scheduler/Collect.antt =====
-- `task_garbage_collection` of core/scheduler.c.
use stm32_cli_os.Prelude.{
  ℕ, zero, suc, ◌+◌, ◌&&◌, Option, none, some, ltb, leb, ◌==◌, if◌then◌else◌, put, ◌>>=◌,
}
use stm32_cli_os.Allocator.{null, allocator_free}
use stm32_cli_os.Scheduler.{
  System, Task, task_unused, is_unused, is_zombie, no_task, max_tasks, same_task, set_state,
}

-- A zombie's stack is freed and its slot becomes unused.
unfoldable pub reap : System → ℕ → Option System
reap s i =
    let t = s.task_list i in
    if is_zombie t.state
    then (if t.stack_ptr == null
        then some (set_state s i task_unused)
        else elim (allocator_free s.heap t.stack_ptr) [
          | none ↦ none
          | some h ↦ some (record s {
            heap = h;
            task_list = put s.task_list i (record t { stack_ptr = null; state = task_unused });
          })
        ])
    else some s

abbrev pub redirect : ℕ → ℕ → Option ℕ → Option ℕ
redirect read_idx write_idx p = if same_task read_idx p then some write_idx else p

-- The task moves down, and the pointers to it follow.
unfoldable pub move_task : System → ℕ → ℕ → System
move_task s read_idx write_idx = record s {
  task_list = put s.task_list write_idx (s.task_list read_idx);
  task_current = redirect read_idx write_idx s.task_current;
  task_current_index =
      if same_task read_idx s.task_current then write_idx else s.task_current_index;
  task_next = redirect read_idx write_idx s.task_next;
  idle_task = redirect read_idx write_idx s.idle_task;
}

-- The loop, with the rounds left: the system, and the final `write_idx`.
unfoldable pub compact_loop : ℕ → System → ℕ → ℕ → Option (System × ℕ)
compact_loop zero s read_idx write_idx = some (s, write_idx)
compact_loop (suc k) s read_idx write_idx = reap s read_idx >>= λ s'.
    let skipped = compact_loop k s' (read_idx + 1) write_idx in
    let kept = compact_loop k s' (read_idx + 1) (write_idx + 1) in
    let moved = compact_loop k (move_task s' read_idx write_idx) (read_idx + 1) (write_idx + 1) in
    if is_unused (s'.task_list read_idx).state
    then skipped
    else if read_idx == write_idx
    then kept
    else moved

-- The slots from `task_count` on are cleared.
abbrev pub clear_from : ℕ → (ℕ → Task) → ℕ → Task
clear_from count list i = if leb count i && ltb i max_tasks then no_task else list i

-- What follows the loop.
abbrev pub close_table : System → ℕ → System
close_table s write_idx = record s {
  task_count = write_idx;
  task_list = clear_from write_idx s.task_list;
}

unfoldable pub task_garbage_collection : System → Option System
task_garbage_collection s =
    compact_loop s.task_count s 0 0 >>= λ (s', write_idx). some (close_table s' write_idx)
