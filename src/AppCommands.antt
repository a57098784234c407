-- ===== src/AppCommands.antt =====
-- app/app_commands.c: its state, and the handlers but for the heap test. A handler takes `argv` as
-- indices into the line buffer, and returns 0 (`ok`) or -1 (`err`); `none` is an allocator out of
-- fuel.
pub mod HeapTest
pub mod Calls
pub mod Uptime
pub mod Register
mod Tests
use stm32_cli_os.Prelude.{
  ℕ, zero, suc, ◌+◌, ◌*◌, ◌/◌, ◌%◌, ◌^◌, Bool, true, false, Option, none, some, List, [], ◌∷◌, ltb,
  ◌==◌, if◌then◌else◌, u32, ◌>>=◌,
}
use stm32_cli_os.Utils.Strings.{Text, codes, atoi}
use stm32_cli_os.Allocator.{Heap, null}
use stm32_cli_os.Allocator.Report.{Status, ok, err, HeapStats}
use stm32_cli_os.Stm32Alloc.{Cpu, stm32_allocator_get_stats, stm32_allocator_check_integrity}
use stm32_cli_os.Scheduler.{
  System, Task, TaskState, task_unused, task_ready, task_running, task_blocked, task_zombie,
  is_unused, TaskReturn, max_tasks, delete_success, delete_task_not_found, delete_is_idle,
  delete_is_current_task,
}
use stm32_cli_os.Scheduler.Control.{task_delete}
use stm32_cli_os.Cli.{CliCommand, CliContext, cli_max_line_len, cli_register_command}
use stm32_cli_os.Cli.Printf.{Argument, number, string, cli_printf}
use stm32_cli_os.Cli.Tokens.{string_at}

-- What the handlers change: the output, the system with its heap, `BASEPRI`, the state of the
-- pseudo-random numbers, and the register `AIRCR`.
pub record App : Type 0 where
  pub cli : CliContext
  pub system : System
  pub basepri : ℕ
  pub prng_state : ℕ
  pub aircr : ℕ

abbrev pub say : Text → List Argument → App → App
say text args a = record a { cli = (cli_printf a.cli text args).1 }

-- A call of the allocator.
abbrev pub on_cpu {ℓ} : {A : Type ℓ} → (Cpu → Option (A × Cpu)) → App → Option (A × App)
on_cpu call a = call (record { basepri = a.basepri; heap = a.system.heap }) >>= λ (result, cpu).
    some
      (result, record a { system = record (a.system) { heap = cpu.heap }; basepri = cpu.basepri })

abbrev pub argument : App → ℕ → Text
argument a p = string_at cli_max_line_len a.cli.line_buffer p

unfoldable pub mini_rand : App → ℕ × App
mini_rand a =
    let state = (a.prng_state * 1664525 + 1013904223) % u32 in
    (state, record a { prng_state = state })

-- The lines of `cmd_heap_stats_handler` in front of the integrity check.
abbrev pub say_stats : HeapStats → App → App
say_stats stats a =
    let a1 = say (codes "Heap Statistics:\r\n") [] a in
    let a2 = say (codes "  Total size:     %u bytes\r\n") (number stats.total_size ∷ []) a1 in
    let a3 = say (codes "  Used:           %u bytes\r\n") (number stats.used_size ∷ []) a2 in
    let a4 = say (codes "  Free:           %u bytes\r\n") (number stats.free_size ∷ []) a3 in
    let a5 =
      say (codes "  Largest block:  %u bytes\r\n") (number stats.largest_free_block ∷ []) a4 in
    let a6 = say (codes "  Allocated blocks: %u\r\n") (number stats.allocated_blocks ∷ []) a5 in
    let a7 = say (codes "  Free fragments:   %u\r\n") (number stats.free_blocks ∷ []) a6 in
    let percent = stats.used_size * 100 % u32 / stats.total_size in
    if ltb 0 stats.total_size
    then say (codes "  Usage:           %u%%\r\n") (number percent ∷ []) a7
    else a7

abbrev pub say_integrity : Status → App → App
say_integrity ok a = say (codes "  Status:          OK\r\n") [] a
say_integrity err a = say (codes "  Status:          CORRUPTED!\r\n") [] a

abbrev pub show_stats : (Status × HeapStats) × App → Option (Status × App)
show_stats ((ok, stats), a) =
    on_cpu stm32_allocator_check_integrity (say_stats stats a) >>= λ (status, a').
    some (ok, say_integrity status a')
show_stats ((err, stats), a) = some (ok, say (codes "Heap not initialized\r\n") [] a)

unfoldable pub cmd_heap_stats_handler : List ℕ → App → Option (Status × App)
cmd_heap_stats_handler argv a = on_cpu stm32_allocator_get_stats a >>= show_stats

abbrev pub state_str : TaskState → Text
state_str task_ready = codes "READY"
state_str task_running = codes "RUNNING"
state_str task_blocked = codes "BLOCKED"
state_str task_zombie = codes "ZOMBIE"
state_str task_unused = codes "UNKNOWN"

abbrev pub say_task : Task → App → App
say_task t a =
    if t.stack_ptr == null
    then say (codes "Error loacting memory") [] a
    else say (codes "%u   %s      %x\r\n")
        (number t.task_id ∷ string (some (state_str t.state)) ∷ number t.stack_ptr ∷ []) a

-- The loop of `cmd_task_list_handler`, with the rounds left.
unfoldable pub task_list_loop : ℕ → ℕ → ℕ → App → ℕ × App
task_list_loop zero i count a = (count, a)
task_list_loop (suc k) i count a =
    let t = a.system.task_list i in
    let unused = is_unused t.state in
    task_list_loop k (i + 1) (if unused then count else count + 1)
      (if unused then a else say_task t a)

unfoldable pub cmd_task_list_handler : List ℕ → App → Status × App
cmd_task_list_handler argv a =
    let a1 = say (codes "Task List:\r\n") [] a in
    let a2 = say (codes "ID   State      Stack Location\r\n") [] a1 in
    let a3 = say (codes "---  ---------  --------------\r\n") [] a2 in
    let (count, a4) = task_list_loop max_tasks 0 0 a3 in
    (ok, say (codes "\r\nTotal tasks: %u\r\n") (number count ∷ []) a4)

-- The values of `TASK_DELETE_TASK_NOT_FOUND` and so on, as words.
abbrev pub delete_code : TaskReturn → ℕ
delete_code delete_success = 0
delete_code delete_task_not_found = 4294967295
delete_code delete_is_idle = 4294967294
delete_code delete_is_current_task = 4294967293

abbrev pub say_deleted : TaskReturn → ℕ → App → App
say_deleted delete_success task_id a = say (codes "Task %u killed.\r\n") (number task_id ∷ []) a
say_deleted delete_task_not_found task_id a =
    say (codes "Error: Task %u not found.\r\n") (number task_id ∷ []) a
say_deleted result task_id a =
    say (codes "Error: Could not kill task %u (Code %d).\r\n")
      (number task_id ∷ number (delete_code result) ∷ []) a

abbrev pub kill : ℕ → App → Status × App
kill task_id a =
    let (result, s) = task_delete a.system task_id in
    (ok, say_deleted result task_id (record a { system = s }))

unfoldable pub cmd_kill_handler : List ℕ → App → Status × App
cmd_kill_handler (p ∷ q ∷ argv) a = kill (atoi (argument a q) % 2 ^ 16) a
cmd_kill_handler argv a = (err, say (codes "Usage: kill <id>\r\n") [] a)

-- The state when the handler enters its endless loop.
unfoldable pub cmd_reboot_handler : List ℕ → App → App
cmd_reboot_handler argv a = record (say (codes "Rebooting system...\r\n") [] a) {
  aircr = 1530 * 2 ^ 16 + 4;
}
