-- ===== src/Scheduler/Create.antt =====
-- `task_create`, `task_create_idle` and `scheduler_start` of core/scheduler.c.
use stm32_cli_os.Prelude.{
  ℕ, ◌+◌, ◌%◌, ◌-◌, true, false, ◌||◌, Option, none, some, List, [], ◌∷◌, leb, ltb, ◌==◌,
  if◌then◌else◌, add32, sub32, put,
}
use stm32_cli_os.Memory.{Mem, store32}
use stm32_cli_os.Allocator.{null, allocator_malloc}
use stm32_cli_os.Scheduler.{
  System, task_ready, task_running, is_unused, max_tasks, stack_canary, find_task, set_state,
}

-- The addresses that the linker gives the functions.
pub record Image : Type 0 where
  pub task_exit : ℕ
  pub task_idle_function : ℕ

abbrev pub stack_min_size_bytes : ℕ
stack_min_size_bytes = 512

abbrev pub stack_max_size_bytes : ℕ
stack_max_size_bytes = 8192

-- The words of the first frame, from the top of the stack down: the frame of the hardware, then the
-- registers R11 to R4.
abbrev pub first_frame : ℕ → ℕ → ℕ → List ℕ
first_frame exit task_func arg =
    16777216 ∷ task_func ∷ exit ∷ 0 ∷ 0 ∷ 0 ∷ 0 ∷ arg ∷ 0 ∷ 0 ∷ 0 ∷ 0 ∷ 0 ∷ 0 ∷ 0 ∷ 0 ∷ []

-- `*(top_of_stack--) = word` for each word.
abbrev pub push_words : Mem → ℕ → List ℕ → Mem
push_words m top [] = m
push_words m top (w ∷ ws) = push_words (store32 m top w) (sub32 top 4) ws

-- The memory, and the stack pointer that is returned.
unfoldable pub initialize_stack : Mem → ℕ → ℕ → ℕ → ℕ → Mem × ℕ
initialize_stack m top_of_stack exit task_func arg =
    (push_words m top_of_stack (first_frame exit task_func arg), sub32 top_of_stack 60)

-- The slot that a new task takes: the first unused one, or the one behind the last.
abbrev pub free_slot : System → ℕ
free_slot s = elim (find_task (λ t. is_unused t.state) s.task_list s.task_count 0) [
  | none ↦ s.task_count
  | some i ↦ i
]

-- What follows a successful allocation: the id, and the system.
unfoldable pub place_task : Image → System → ℕ → ℕ → ℕ → ℕ → ℕ × System
place_task image s task_func arg stack_size_bytes stack_base =
    let index = free_slot s in
    let end : ℕ = sub32 (add32 stack_base stack_size_bytes) 4 in
    let stack_end : ℕ = end - end % 8 in
    let (m, psp) = initialize_stack s.heap.mem stack_end image.task_exit task_func arg in
    let id = (s.next_task_id + 1) % 65536 in
    (
      id,
      record s {
        heap = record (s.heap) { mem = store32 m stack_base stack_canary };
        task_list = put s.task_list index (record {
          psp = psp;
          sleep_until_tick = 0;
          stack_ptr = stack_base;
          stack_size = stack_size_bytes;
          state = task_ready;
          is_idle = false;
          task_id = id;
        });
        task_count = if index == s.task_count then add32 s.task_count 1 else s.task_count;
        next_task_id = id;
      },
    )

-- The size that is allocated for a requested one.
abbrev pub stack_bytes : ℕ → ℕ
stack_bytes size =
    let n : ℕ = if ltb size stack_min_size_bytes then stack_min_size_bytes else size in
    let up : ℕ = add32 n 7 in up - up % 8

-- The inner `none` is the result -1.
unfoldable pub task_create : Image → System → ℕ → ℕ → ℕ → Option (Option ℕ × System)
task_create image s task_func arg stack_size_bytes =
    if leb max_tasks s.task_count || task_func == null
    then some (none, s)
    else if ltb stack_max_size_bytes stack_size_bytes
    then some (none, s)
    else elim (allocator_malloc s.heap (stack_bytes stack_size_bytes)) [
      | none ↦ none
      | some (stack_base, h) ↦
          if stack_base == null
          then some (none, record s { heap = h })
          else let (id, s') =
              place_task image (record s { heap = h }) task_func arg (stack_bytes stack_size_bytes)
                stack_base in
            some (some id, s')
    ]

-- The search for the task that was just created, which becomes the idle task.
unfoldable pub mark_idle : System → ℕ → System
mark_idle s id = elim (find_task (λ t. t.task_id == id) s.task_list s.task_count 0) [
  | none ↦ s
  | some i ↦ record s {
    idle_task = some i;
    task_list = put s.task_list i (record (s.task_list i) { is_idle = true });
  }
]

-- What follows the creation of the idle task.
abbrev pub idle_created : Option (Option ℕ × System) → Option System
idle_created none = none
idle_created (some (none, s)) = some s
idle_created (some (some id, s)) = some (mark_idle s id)

-- The branches on `idle_task`.
abbrev pub idle_from : Image → System → Option ℕ → Option System
idle_from image s (some i) = some s
idle_from image s none = idle_created (task_create image s image.task_idle_function null 512)

unfoldable pub task_create_idle : Image → System → Option System
task_create_idle image s = idle_from image s s.idle_task

-- The state in which `task_create_first` starts the first task.
unfoldable pub scheduler_start : Image → System → Option System
scheduler_start image s = if s.task_count == 0 then some s else elim (task_create_idle image s) [
  | none ↦ none
  | some s' ↦ some (record (set_state s' 0 task_running) {
    task_current_index = 0;
    task_current = some 0;
    task_next = some 0;
  })
]
