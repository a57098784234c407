-- ===== src/AppCommands/HeapTest/Patterns.antt =====
-- `fill_pattern`, `verify_pattern` and `TEST_ASSERT` of app/app_commands.c.
use stm32_cli_os.Prelude.{ℕ, zero, suc, ◌+◌, ◌%◌, Option, some, [], ◌∷◌, ◌==◌, if◌then◌else◌}
use stm32_cli_os.Memory.{Mem, store8}
use stm32_cli_os.Utils.Strings.{Text, codes}
use stm32_cli_os.Allocator.Report.{Status, ok, err}
use stm32_cli_os.Cli.Printf.{string}
use stm32_cli_os.AppCommands.{App, say}

-- The loops, with the rounds left.
unfoldable pub fill_loop : ℕ → Mem → ℕ → ℕ → Mem
fill_loop zero m ptr i = m
fill_loop (suc k) m ptr i = fill_loop k (store8 m (ptr + i) (i % 256)) ptr (i + 1)

unfoldable pub fill_pattern : Mem → ℕ → ℕ → Mem
fill_pattern m ptr size = fill_loop size m ptr 0

unfoldable pub verify_loop : ℕ → Mem → ℕ → ℕ → Status
verify_loop zero m ptr i = ok
verify_loop (suc k) m ptr i =
    let rest = verify_loop k m ptr (i + 1) in if m (ptr + i) == i % 256 then rest else err

unfoldable pub verify_pattern : Mem → ℕ → ℕ → Status
verify_pattern m ptr size = verify_loop size m ptr 0

-- The memory of the heap.
abbrev pub memory : App → Mem
memory a = a.system.heap.mem

abbrev pub set_memory : App → Mem → App
set_memory a m = record a {
  system = record (a.system) { heap = record (a.system.heap) { mem = m } };
}

abbrev pub failed : Text → App → Option (Status × App)
failed msg a = some (err, say (codes "[FAIL] %s\r\n") (string (some msg) ∷ []) a)

-- `TEST_ASSERT` of a status, and what follows it.
abbrev pub test_ok : Text → Status → App → (App → Option (Status × App)) → Option (Status × App)
test_ok msg ok a next = next a
test_ok msg err a next = failed msg a
