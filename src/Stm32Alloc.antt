-- ===== src/Stm32Alloc.antt =====
-- core/stm32_alloc.c: the allocator behind a priority threshold, and the critical sections of
-- core/utils.h.

pub mod Restore
use stm32_cli_os.Prelude.{ℕ, ◌≡◌, refl, ap, ◌∙◌, Option, none, some, ◌>>=◌}
use stm32_cli_os.Allocator.{Heap, allocator_init, allocator_malloc, allocator_free}
use stm32_cli_os.Allocator.Report.{
  Status, HeapStats, allocator_get_free_size, allocator_get_fragment_count, allocator_get_stats,
  allocator_check_integrity,
}
use stm32_cli_os.Allocator.Resize.{allocator_realloc}

-- The register `BASEPRI` and the statics of the allocator.
pub record Cpu : Type 0 where
  pub basepri : ℕ
  pub heap : Heap

abbrev pub allocator_priority_threshold : ℕ
allocator_priority_threshold = 80

-- The former value, and the state with the new one.
abbrev pub enter_critical_basepri : ℕ → Cpu → ℕ × Cpu
enter_critical_basepri threshold cpu = (cpu.basepri, record cpu { basepri = threshold })

abbrev pub exit_critical_basepri : ℕ → Cpu → Cpu
exit_critical_basepri status cpu = record cpu { basepri = status }

-- A call between the two, with its result; `none` where its fuel ran out.
abbrev pub critical {ℓ} : {A : Type ℓ} → (Heap → Option (A × Heap)) → Cpu → Option (A × Cpu)
critical call cpu =
    let (status, inside) = enter_critical_basepri allocator_priority_threshold cpu in
    call inside.heap >>= λ (result, h).
    some (result, exit_critical_basepri status (record inside { heap = h }))

unfoldable pub stm32_allocator_init : ℕ → ℕ → Cpu → Option (Unit {0} × Cpu)
stm32_allocator_init pool size = critical (λ h. some (tt, allocator_init h pool size))

unfoldable pub stm32_allocator_malloc : ℕ → Cpu → Option (ℕ × Cpu)
stm32_allocator_malloc size = critical (λ h. allocator_malloc h size)

unfoldable pub stm32_allocator_free : ℕ → Cpu → Option (Unit {0} × Cpu)
stm32_allocator_free ptr = critical (λ h. allocator_free h ptr >>= λ h'. some (tt, h'))

unfoldable pub stm32_allocator_realloc : ℕ → ℕ → Cpu → Option (ℕ × Cpu)
stm32_allocator_realloc ptr new_size = critical (λ h. allocator_realloc h ptr new_size)

unfoldable pub stm32_allocator_get_free_size : Cpu → Option (ℕ × Cpu)
stm32_allocator_get_free_size = critical (λ h. some (allocator_get_free_size h, h))

unfoldable pub stm32_allocator_get_fragment_count : Cpu → Option (ℕ × Cpu)
stm32_allocator_get_fragment_count = critical (λ h. some (allocator_get_fragment_count h, h))

unfoldable pub stm32_allocator_get_stats : Cpu → Option ((Status × HeapStats) × Cpu)
stm32_allocator_get_stats = critical (λ h. allocator_get_stats h >>= λ result. some (result, h))

unfoldable pub stm32_allocator_check_integrity : Cpu → Option (Status × Cpu)
stm32_allocator_check_integrity =
    critical (λ h. allocator_check_integrity h >>= λ result. some (result, h))
