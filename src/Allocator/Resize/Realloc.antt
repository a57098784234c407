-- ===== src/Allocator/Resize/Realloc.antt =====
-- `allocator_realloc` of a block in use, on every branch.
use stm32_cli_os.Prelude.{
  ℕ, ◌+◌, ◌<◌, ◌≤◌, ◌≡◌, subst, ◌∙◌, inl, inr, false, Option, none, some, List, ◌∷◌, ◌++◌, arith,
  sub32, le→leb, lt→leb, ==_ne, ◌==◌, Option-cases,
}
use stm32_cli_os.Memory.{load32}
use stm32_cli_os.Allocator.{Heap, null, get_size, align, allocator_malloc}
use stm32_cli_os.Allocator.Blocks.{Block, used_block, span}
use stm32_cli_os.Allocator.Chain.{Represents}
use stm32_cli_os.Allocator.Find.{get_size-tag}
use stm32_cli_os.Allocator.Free.{free_refines}
use stm32_cli_os.Allocator.Malloc.{request, Outcome, malloc_refines}
use stm32_cli_os.Allocator.Replace.{At-block}
use stm32_cli_os.Allocator.Resize.{move, grow, shrink, allocator_realloc}
use stm32_cli_os.Allocator.Resize.Move.{Moved, move-Moved}
use stm32_cli_os.Allocator.Resize.Shrink.{Shrinks, shrink-Shrinks}

module _ (h : Heap) (pre : List Block) (s : ℕ) (post : List Block)
    (r : Represents h (pre ++ (used_block s ∷ post))) (ptr : ℕ)
    (here : ptr ≡ h.head + span pre + 8) where
  -- How the function finds the block, and what its size is.
  block-eq : sub32 ptr 8 ≡ h.head + span pre
  block-eq = let a = At-block h pre (used_block s) post r in omega (arith, a.top, a.memory)

  size-eq : get_size (load32 h.mem (h.head + span pre)) ≡ s
  size-eq =
      let a = At-block h pre (used_block s) post r in
      rw a.chain.0 (get_size-tag (used_block s) a.size_aligned)

  live : (ptr == null) ≡ false
  live = ==_ne ptr null (omega arith)

  -- `allocator_realloc` of a block in use to size 0 returns `NULL` and leaves the heap that
  -- `allocator_free` of the block leaves.
  pub realloc-zero :
      let f = free_refines h s pre post r ptr here in
      allocator_realloc h ptr 0 ≡ some (null, f.after)
  unfolding allocator_realloc
  realloc-zero = let f = free_refines h s pre post r ptr here in rw (live, f.ends)

  -- For a block in use and a size above 0 whose rounding it holds, `allocator_realloc` returns the
  -- same address, carves the block to the rounded size, keeps the bytes of its new extent and
  -- changes no byte outside the old block.
  pub realloc-shrink :
      (size : ℕ)
      → 0 < size
      → align size ≤ s
      → (h' : Heap) × (allocator_realloc h ptr size ≡ some (ptr, h'))
        × Shrinks h pre s (align size) post h'
  unfolding allocator_realloc
  realloc-shrink size pos fit = (
    shrink h (h.head + span pre) s (align size),
    rw (live, ==_ne size 0 (omega arith), block-eq, size-eq, le→leb _ _ fit),
    shrink-Shrinks h pre s (align size) post (omega arith) r fit,
  )

  grow-eq : (size : ℕ) → s < align size → allocator_realloc h ptr size ≡ grow h ptr s size
  unfolding allocator_realloc
  grow-eq size more =
      rw (live, ==_ne size 0 (λ e. omega arith), block-eq, size-eq, lt→leb (align size) s more)

  grow-call :
      (size : ℕ) {result : ℕ × Heap}
      → allocator_malloc h size ≡ some result
      → grow h ptr s size ≡ move ptr s result
  unfolding grow
  grow-call size call = rw (call, grow)

  -- A larger size: the outcome of the search, then the copy and the release.
  abbrev pub Grows : ℕ → Option (ℕ × List Block) → Type 0
  Grows size none = allocator_realloc h ptr size ≡ some (null, h)
  Grows size (some (off, bs')) = Moved h (span pre) s ptr bs' (allocator_realloc h ptr size)

  -- For a block in use and a size whose rounding exceeds it, `allocator_realloc` ends: if the
  -- search fails it returns `NULL` and the heap is unchanged; otherwise it returns a new block, in
  -- use, that holds the bytes of the old one, and the heap represents the list in which the old
  -- block is free again, with free runs joined.
  pub realloc-grow :
      (size : ℕ) → s < align size → Grows size (request h (pre ++ (used_block s ∷ post)) size)
  unfolding move
  realloc-grow size more =
      let bs = pre ++ (used_block s ∷ post) in
      elim (Option-cases (request h bs size)) [
        | inl nothing ↦
            let call = subst (Outcome r size) nothing (malloc_refines r size) in
            rw nothing (grow-eq size more ∙ grow-call size call)
        | inr ((off, bs'), found) ↦
            let (p, h₁, call, a) = subst (Outcome r size) found (malloc_refines r size) in
            rw (found, grow-eq size more, grow-call size call)
              (move-Moved h h₁ pre post s (align size) p off bs' a (omega arith) ptr here)
      ]
