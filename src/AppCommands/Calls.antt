-- ===== src/AppCommands/Calls.antt =====
-- The calls of the allocator that the handlers of app/app_commands.c make.
use stm32_cli_os.Prelude.{ℕ, ◌≡◌, refl, some}
use stm32_cli_os.Allocator.{Heap, allocator_malloc, allocator_free}
use stm32_cli_os.Allocator.Report.{Status, allocator_check_integrity}
use stm32_cli_os.Allocator.Resize.{allocator_realloc}
use stm32_cli_os.Stm32Alloc.{
  stm32_allocator_malloc, stm32_allocator_free, stm32_allocator_realloc,
  stm32_allocator_check_integrity,
}
use stm32_cli_os.AppCommands.{App, on_cpu}

abbrev pub with_heap : App → Heap → App
with_heap a h = record a { system = record (a.system) { heap = h } }

-- A call changes the heap alone: `BASEPRI` is restored.
module _ (a : App) where
  pub on_cpu-malloc :
      (size p : ℕ) (h : Heap)
      → allocator_malloc a.system.heap size ≡ some (p, h)
      → on_cpu (stm32_allocator_malloc size) a ≡ some (p, with_heap a h)
  unfolding stm32_allocator_malloc
  on_cpu-malloc size p h call = rw call refl

  pub on_cpu-realloc :
      (ptr size p : ℕ) (h : Heap)
      → allocator_realloc a.system.heap ptr size ≡ some (p, h)
      → on_cpu (stm32_allocator_realloc ptr size) a ≡ some (p, with_heap a h)
  unfolding stm32_allocator_realloc
  on_cpu-realloc ptr size p h call = rw call refl

  pub on_cpu-free :
      (ptr : ℕ) (h : Heap)
      → allocator_free a.system.heap ptr ≡ some h
      → on_cpu (stm32_allocator_free ptr) a ≡ some (tt, with_heap a h)
  unfolding stm32_allocator_free
  on_cpu-free ptr h call = rw call refl

  pub on_cpu-check :
      (status : Status)
      → allocator_check_integrity a.system.heap ≡ some status
      → on_cpu stm32_allocator_check_integrity a ≡ some (status, a)
  unfolding stm32_allocator_check_integrity
  on_cpu-check status call = rw call refl
