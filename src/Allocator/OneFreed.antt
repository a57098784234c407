-- ===== src/Allocator/OneFreed.antt =====
-- A block in use is freed: one block less is in use, and each other one keeps its place and its bytes.
use stm32_cli_os.Prelude.{
  ℕ, ◌+◌, ◌<◌, ◌≤◌, ◌≡◌, ◌≢◌, refl, sym, ap, subst, ◌∙◌, inl, inr, ◌&&◌, List, [], ◌∷◌, ◌++◌,
  sum_of-append, arith, Bool-cases, if◌then◌else◌,
}
use stm32_cli_os.Allocator.{Heap, allocator_free}
use stm32_cli_os.Allocator.Blocks.{
  Block, used_block, free_block, span, used_count, coalesce, coalesce_from,
}
use stm32_cli_os.Allocator.Chain.{Represents}
use stm32_cli_os.Allocator.Data.{InData}
use stm32_cli_os.Allocator.Free.{Freed, free_refines}
use stm32_cli_os.Allocator.InPlace.{UsedAt, free-UsedAt}
use stm32_cli_os.Allocator.Merge.{coalesce_from-join, coalesce_from-skip, coalesce_from-nil}
use stm32_cli_os.Allocator.Resize.Carve.{InData-here}

-- Joining free blocks leaves the number of blocks in use.
coalesce_from-used_count :
    (b : Block) (bs : List Block) → used_count (coalesce_from b bs) ≡ used_count (b ∷ bs)
coalesce_from-used_count b [] = ap used_count (coalesce_from-nil b)
coalesce_from-used_count b (c ∷ cs) = elim (Bool-cases (b.is_free && c.is_free)) [
  | inl both ↦
      rw (coalesce_from-join b c cs both)
        (coalesce_from-used_count (free_block (b.size + 8 + c.size)) cs ∙ ground (arith, both))
  | inr apart ↦
      rw (coalesce_from-skip b c cs apart)
        (ap (λ n. (if b.is_free then 0 else 1) + n) (coalesce_from-used_count c cs))
]

coalesce-used_count : (bs : List Block) → used_count (coalesce bs) ≡ used_count bs
unfolding coalesce
coalesce-used_count [] = refl
coalesce-used_count (b ∷ bs) = coalesce_from-used_count b bs

-- One block is freed.
module _ (h : Heap) (bs : List Block) (r : Represents h bs) (s off : ℕ) (u : UsedAt s off bs)
    (ptr : ℕ) (here : ptr ≡ h.head + off + 8) where
  abbrev pub freed_blocks : List Block
  freed_blocks = u.before ++ (free_block s ∷ u.after)

  pub one-Freed : Freed h u.before s u.after (allocator_free h ptr)
  one-Freed =
      free_refines h s u.before u.after (subst (Represents h) u.blocks r) ptr
        (omega (arith, here, u.offset))

  pub one-fewer : used_count (coalesce freed_blocks) + 1 ≡ used_count bs
  one-fewer =
      let f : Block → ℕ = λ b. if b.is_free then 0 else 1 in
      let a : used_count freed_blocks ≡ used_count u.before + used_count (free_block s ∷ u.after) =
        sum_of-append f u.before (free_block s ∷ u.after) in
      let b : used_count (u.before ++ (used_block s ∷ u.after))
          ≡ used_count u.before + used_count (used_block s ∷ u.after) =
        sum_of-append f u.before (used_block s ∷ u.after) in
      omega (arith, coalesce-used_count freed_blocks, a, b, ap used_count u.blocks)

  pub survives : (n off' : ℕ) → UsedAt n off' bs → off' ≢ off → UsedAt n off' freed_blocks
  survives n off' v ne =
      let apart : span v.before ≢ span u.before = λ e. ne (sym v.offset ∙ (e ∙ u.offset)) in
      subst (λ x. UsedAt n x freed_blocks) v.offset
        (free-UsedAt v.before v.after u.before u.after n s apart (sym v.blocks ∙ u.blocks))

  pub survives-data :
      (n off' p : ℕ)
      → UsedAt n off' freed_blocks
      → h.head + off' + 8 ≤ p
      → p < h.head + off' + 8 + n
      → (one-Freed.after).mem p ≡ h.mem p
  survives-data n off' p w lo hi = one-Freed.keeps p (
      subst (InData p h.head) (sym w.blocks) (
        InData-here p h.head w.before n w.after (omega (arith, lo, w.offset))
          (omega (arith, hi, w.offset))))
