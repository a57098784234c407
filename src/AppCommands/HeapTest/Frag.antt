-- ===== src/AppCommands/HeapTest/Frag.antt =====
-- The mode `frag` of `cmd_heap_test_handler` of app/app_commands.c.
use stm32_cli_os.Prelude.{
  ℕ, zero, suc, ◌+◌, ◌&&◌, Option, none, some, [], ◌∷◌, ◌==◌, if◌then◌else◌, ◌>>=◌, put,
}
use stm32_cli_os.Utils.{memset}
use stm32_cli_os.Utils.Strings.{codes}
use stm32_cli_os.Allocator.{null}
use stm32_cli_os.Allocator.Report.{Status, ok, HeapStats}
use stm32_cli_os.Stm32Alloc.{
  stm32_allocator_malloc, stm32_allocator_free, stm32_allocator_get_stats,
  stm32_allocator_check_integrity,
}
use stm32_cli_os.Cli.Printf.{number}
use stm32_cli_os.AppCommands.{App, say, on_cpu}
use stm32_cli_os.AppCommands.HeapTest.Patterns.{memory, set_memory, failed, test_ok}

abbrev pub frag_blocks : ℕ
frag_blocks = 5

abbrev pub frag_size : ℕ
frag_size = 64

-- `ptrs`, an array.
abbrev pub Pointers : Type 0
Pointers = ℕ → ℕ

-- The loop that allocates, with the rounds left: `none` where `TEST_ASSERT` failed.
unfoldable pub alloc_loop : ℕ → ℕ → Pointers → App → Option (Option Pointers × App)
alloc_loop zero i ptrs a = some (some ptrs, a)
alloc_loop (suc k) i ptrs a = on_cpu (stm32_allocator_malloc frag_size) a >>= λ (ptr, a').
    let rest =
      alloc_loop k (i + 1) (put ptrs i ptr)
        (set_memory a' (memset (memory a') ptr 170 frag_size)) in
    if ptr == null then some (none, a') else rest

abbrev pub free_at : ℕ → App → Option App
free_at ptr a = on_cpu (stm32_allocator_free ptr) a >>= λ (done, a'). some a'

-- The verdict on the last statistics.
abbrev pub judge : ℕ → (Status × HeapStats) × App → Option (Status × App)
judge baseline_blocks ((status, stats), a) =
    if (stats.allocated_blocks == baseline_blocks) && (stats.free_blocks == 1)
    then some (ok, say (codes "[PASS] Coalescing working (1 large free block).\r\n") [] a)
    else some (
      ok,
      say (codes "[FAIL] Coalescing failed! Blocks: %u (Base: %u), Frags: %u\r\n")
          (number stats.allocated_blocks ∷ number baseline_blocks ∷ number stats.free_blocks ∷ [])
          a,
    )

-- The step 3: the other blocks are freed.
abbrev pub free_rest : ℕ → Pointers → App → Option (Status × App)
free_rest baseline_blocks ptrs a =
    free_at (ptrs 0) (say (codes "3. Freeing remaining blocks to force coalescing...\r\n") [] a)
    >>= free_at (ptrs 2)
    >>= free_at (ptrs 4)
    >>= λ a1. on_cpu stm32_allocator_check_integrity a1 >>= λ (status, a2).
        test_ok (codes "Integrity check failed after full free") status a2
          λ a3. on_cpu stm32_allocator_get_stats a3 >>= judge baseline_blocks

abbrev pub show_fragments : (Status × HeapStats) × App → App
show_fragments ((status, stats), a) =
    say (codes "   Fragments: %u (Expect > 1)\r\n") (number stats.free_blocks ∷ []) a

-- The step 2: the holes.
abbrev pub make_holes : ℕ → Option Pointers × App → Option (Status × App)
make_holes baseline_blocks (none, a) = failed (codes "Alloc failed") a
make_holes baseline_blocks (some ptrs, a) =
    free_at (ptrs 1) (say (codes "2. Creating holes (Freeing index 1 and 3)...\r\n") [] a)
    >>= free_at (ptrs 3)
    >>= λ a1. on_cpu stm32_allocator_check_integrity a1 >>= λ (status, a2).
        test_ok (codes "Integrity check failed after holes") status a2 λ a3.
          on_cpu stm32_allocator_get_stats a3 >>= λ result.
          free_rest baseline_blocks ptrs (show_fragments result)

unfoldable pub heap_test_frag : ℕ → App → Option (Status × App)
heap_test_frag baseline_blocks a =
    alloc_loop frag_blocks 0 (λ _. 0)
      (say (codes "1. Allocating %d blocks of %d bytes...\r\n") (number 5 ∷ number 64 ∷ []) a)
    >>= make_holes baseline_blocks
