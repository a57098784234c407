-- ===== src/Stm32Alloc/Restore.antt =====
-- The wrappers of core/stm32_alloc.c on a heap that represents a list of blocks.
use stm32_cli_os.Prelude.{
  ℕ, ◌+◌, ◌≡◌, refl, Option, none, some, List, ◌∷◌, ◌++◌, subst, Option-cases, inl, inr,
}
use stm32_cli_os.Allocator.Blocks.{Block, used_block, free_block, span, coalesce}
use stm32_cli_os.Allocator.Chain.{Represents}
use stm32_cli_os.Allocator.Free.{free_refines}
use stm32_cli_os.Allocator.Malloc.{request, Outcome, Allocated, malloc_refines}
use stm32_cli_os.Allocator.{align, null}
use stm32_cli_os.Stm32Alloc.{Cpu, stm32_allocator_malloc, stm32_allocator_free}

-- What the wrapped `malloc` does for the outcome of the search.
abbrev pub Guarded : Cpu → List Block → ℕ → Option (ℕ × List Block) → Type 0
Guarded cpu bs size none = stm32_allocator_malloc size cpu ≡ some (null, cpu)
Guarded cpu bs size (some (off, bs')) =
    (p : ℕ) × (cpu' : Cpu) × (stm32_allocator_malloc size cpu ≡ some (p, cpu'))
    × (cpu'.basepri ≡ cpu.basepri)
    × Allocated cpu.heap bs (align size) p cpu'.heap off bs'

-- In a heap that represents a list of blocks, `stm32_allocator_malloc` ends; where the search fails
-- it returns `NULL` with heap and `BASEPRI` as before, otherwise it allocates as `allocator_malloc`
-- does and `BASEPRI` is as before.
pub malloc-Guarded :
    (cpu : Cpu) {bs : List Block} (size : ℕ)
    → Represents cpu.heap bs
    → Guarded cpu bs size (request cpu.heap bs size)
unfolding stm32_allocator_malloc
malloc-Guarded cpu {bs} size r = elim (Option-cases (request cpu.heap bs size)) [
  | inl nothing ↦
      let call = subst (Outcome r size) nothing (malloc_refines r size) in rw (nothing, call) refl
  | inr ((off, bs'), found) ↦
      let (p, h, call, a) = subst (Outcome r size) found (malloc_refines r size) in
      rw found (p, record cpu { heap = h }, rw call refl, refl, a)
]

-- For a block in use of a represented heap, `stm32_allocator_free` ends with `BASEPRI` as before
-- and the block free in the list, free runs joined.
pub free-Guarded :
    (cpu : Cpu) (s : ℕ) (pre post : List Block)
    → Represents cpu.heap (pre ++ (used_block s ∷ post))
    → (cpu' : Cpu) × (stm32_allocator_free (cpu.heap.head + span pre + 8) cpu ≡ some (tt, cpu'))
      × (cpu'.basepri ≡ cpu.basepri)
      × Represents cpu'.heap (coalesce (pre ++ (free_block s ∷ post)))
unfolding stm32_allocator_free
free-Guarded cpu s pre post r =
    let f = free_refines cpu.heap s pre post r (cpu.heap.head + span pre + 8) refl in
    (record cpu { heap = f.after }, rw (f.ends) refl, refl, f.represents)
