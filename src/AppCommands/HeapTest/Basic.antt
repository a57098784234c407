-- ===== src/AppCommands/HeapTest/Basic.antt =====
-- The mode `basic` of `cmd_heap_test_handler` of app/app_commands.c.
use stm32_cli_os.Prelude.{ℕ, ◌*◌, ◌%◌, Option, some, [], ◌∷◌, ◌==◌, if◌then◌else◌, ◌>>=◌, u32}
use stm32_cli_os.Utils.Strings.{codes}
use stm32_cli_os.Allocator.{null}
use stm32_cli_os.Allocator.Report.{Status, ok, err}
use stm32_cli_os.Stm32Alloc.{
  stm32_allocator_malloc, stm32_allocator_free, stm32_allocator_realloc,
  stm32_allocator_check_integrity,
}
use stm32_cli_os.Cli.Printf.{number}
use stm32_cli_os.AppCommands.{App, say, on_cpu}
use stm32_cli_os.AppCommands.HeapTest.Patterns.{
  fill_pattern, verify_pattern, memory, set_memory, failed, test_ok,
}

-- A failed comparison: the block is freed.
abbrev pub give_up : ℕ → App → Option (Status × App)
give_up ptr a = on_cpu (stm32_allocator_free ptr) a >>= λ (done, a'). some (err, a')

abbrev pub passed : Status × App → Option (Status × App)
passed (status, a) =
    test_ok (codes "Heap corrupted after free") status a
      λ a'. some (ok, say (codes "[PASS] Basic test passed.\r\n") [] a')

-- From the comparison of the moved bytes on.
abbrev pub verify_moved : ℕ → ℕ → Status → App → Option (Status × App)
verify_moved size new_ptr err a =
    give_up new_ptr (say (codes "[FAIL] Realloc corrupted old data!\r\n") [] a)
verify_moved size new_ptr ok a =
    on_cpu (stm32_allocator_free new_ptr) (say (codes "5. Freeing memory...\r\n") [] a)
    >>= λ (done, a'). on_cpu stm32_allocator_check_integrity a' >>= passed

abbrev pub moved : ℕ → ℕ × App → Option (Status × App)
moved size (new_ptr, a) =
    if new_ptr == null
    then failed (codes "Realloc returned NULL") a
    else verify_moved size new_ptr (verify_pattern (memory a) new_ptr size) a

-- From the first comparison on.
abbrev pub verify_filled : ℕ → ℕ → Status → App → Option (Status × App)
verify_filled size ptr err a = give_up ptr (say (codes "[FAIL] Data corruption detected!\r\n") [] a)
verify_filled size ptr ok a =
    let double = size * 2 % u32 in
    on_cpu (stm32_allocator_realloc ptr double)
      (say (codes "4. Reallocating to %u bytes (Growing)...\r\n") (number double ∷ []) a)
    >>= moved size

abbrev pub fill : ℕ → ℕ → App → App
fill size ptr a =
    let a1 = say (codes "2. Writing pattern...\r\n") [] a in
    say (codes "3. Verifying pattern...\r\n") [] (set_memory a1 (fill_pattern (memory a1) ptr size))

abbrev pub allocated : ℕ → ℕ × App → Option (Status × App)
allocated size (ptr, a) =
    if ptr == null
    then failed (codes "Malloc returned NULL") a
    else verify_filled size ptr (verify_pattern (memory (fill size ptr a)) ptr size)
        (fill size ptr a)

unfoldable pub heap_test_basic : ℕ → App → Option (Status × App)
heap_test_basic size a =
    on_cpu (stm32_allocator_malloc size)
      (say (codes "1. Allocating %u bytes...\r\n") (number size ∷ []) a)
    >>= allocated size
