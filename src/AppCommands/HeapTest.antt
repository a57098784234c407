-- ===== src/AppCommands/HeapTest.antt =====
-- `cmd_heap_test_handler` of app/app_commands.c, its arguments and its modes. A `void *` in `ptrs` is
-- an address, 0 for `NULL`.
pub mod Patterns
pub mod Filled
pub mod Tested
pub mod Basic
pub mod Frag
pub mod Stress
use stm32_cli_os.Prelude.{
  ℕ, Bool, true, false, Option, none, some, List, [], ◌∷◌, ◌==◌, if◌then◌else◌, ◌>>=◌,
}
use stm32_cli_os.Utils.Strings.{Text, codes, atoi, str_eq}
use stm32_cli_os.Allocator.Report.{Status, ok, err, HeapStats}
use stm32_cli_os.Stm32Alloc.{stm32_allocator_get_stats}
use stm32_cli_os.Cli.Printf.{string}
use stm32_cli_os.AppCommands.{App, say, on_cpu, argument}
use stm32_cli_os.AppCommands.HeapTest.Basic.{heap_test_basic}
use stm32_cli_os.AppCommands.HeapTest.Frag.{heap_test_frag}
use stm32_cli_os.AppCommands.HeapTest.Stress.{heap_test_stress}

abbrev pub say_usage : App → App
say_usage a =
    let a1 = say (codes "Usage: heaptest <mode> [size]\r\n") [] a in
    let a2 = say (codes "Modes:\r\n") [] a1 in
    let a3 = say (codes "  basic <size>   : Malloc, Write, Realloc, Verify, Free\r\n") [] a2 in
    let a4 = say (codes "  frag           : Frag/Defrag test (Swiss Cheese)\r\n") [] a3 in
    say (codes "  stress         : Randomized torture test\r\n") [] a4

-- The mode `basic`, by the arguments behind it.
abbrev pub run_basic : List ℕ → App → Option (Status × App)
run_basic [] a = some (err, say (codes "Size required.\r\n") [] a)
run_basic (p ∷ argv) a =
    let size = atoi (argument a p) in
    if size == 0
    then some (
      err,
      say (codes "Invalid size (0 or not a number): %s\r\n") (string (some (argument a p)) ∷ []) a,
    )
    else heap_test_basic size a

abbrev pub run_mode : Text → List ℕ → (Status × HeapStats) × App → Option (Status × App)
run_mode mode argv ((status, base_stats), a) =
    if str_eq mode (codes "basic")
    then run_basic argv a
    else if str_eq mode (codes "frag")
    then heap_test_frag base_stats.allocated_blocks a
    else if str_eq mode (codes "stress")
    then heap_test_stress a
    else some (err, say (codes "Unknown mode: %s\r\n") (string (some mode) ∷ []) a)

unfoldable pub cmd_heap_test_handler : List ℕ → App → Option (Status × App)
cmd_heap_test_handler (p ∷ q ∷ argv) a =
    on_cpu stm32_allocator_get_stats a >>= run_mode (argument a q) argv
cmd_heap_test_handler argv a = some (err, say_usage a)
