-- ===== src/Allocator/RoundTrip.antt =====
-- `allocator_malloc`, then `allocator_free` of the block that it returned.
use stm32_cli_os.Prelude.{
  ℕ, ◌+◌, ◌-◌, ◌≡◌, sym, subst, ◌∙◌, inl, inr, some, List, ◌∷◌, ◌++◌, arith, leb, leb→le,
  Bool-cases,
}
use stm32_cli_os.Allocator.{Heap, align, allocator_malloc, allocator_free}
use stm32_cli_os.Allocator.Blocks.{Block, used_block, free_block, span, carve}
use stm32_cli_os.Allocator.Chain.{Represents}
use stm32_cli_os.Allocator.Coalesce.{IsCoalesced, coalesce-id, coalesce-carve}
use stm32_cli_os.Allocator.Free.{free_refines}
use stm32_cli_os.Allocator.Malloc.{request, malloc_refines, Outcome}

-- The list after the new block is freed is the list before the call.
coalesce-carved :
    (pre : List Block) (n s : ℕ) (post : List Block)
    → IsCoalesced (pre ++ (free_block s ∷ post))
    → {h : Heap} {p : ℕ} → Represents h (pre ++ (carve n s ++ post))
    → p ≡ h.head + span pre + 8
    → (h' : Heap) × (allocator_free h p ≡ some h') × Represents h' (pre ++ (free_block s ∷ post))
coalesce-carved pre n s post ok {h} {p} r e = elim (Bool-cases (leb (n + 12) s)) [
  | inl big ↦
      let r' : Represents h (pre ++ (used_block n ∷ free_block (s - n - 8) ∷ post)) = rw big at r in
      let f = free_refines h n pre (free_block (s - n - 8) ∷ post) r' p e in
      let back = coalesce-carve pre n s post (leb→le _ _ big) ∙ coalesce-id _ ok in
      (f.after, f.ends, subst (Represents f.after) back f.represents)
  | inr small ↦
      let r' : Represents h (pre ++ (used_block s ∷ post)) = rw small at r in
      let f = free_refines h s pre post r' p e in
      (f.after, f.ends, subst (Represents f.after) (coalesce-id _ ok) f.represents)
]

-- The two calls leave the same blocks, and the same counters.
pub record Restored (h : Heap) (bs : List Block) (size : ℕ) : Type 0 where
  pub ptr : ℕ
  pub between : Heap
  pub after : Heap
  pub allocated : allocator_malloc h size ≡ some (ptr, between)
  pub freed : allocator_free between ptr ≡ some after
  pub blocks : Represents after bs
  pub same_free : after.free_mem ≡ h.free_mem
  pub same_allocated : after.allocated_mem ≡ h.allocated_mem
  pub same_fragments : after.free_blocks ≡ h.free_blocks

-- Where no two neighbours of the represented list are free and the search for a size succeeds,
-- `allocator_malloc` of the size and then `allocator_free` of its result both end and restore the
-- list of blocks, `free_mem`, `allocated_mem` and `free_blocks`.
pub malloc-free :
    {h : Heap} {bs bs' : List Block} {off : ℕ} (size : ℕ)
    → Represents h bs
    → IsCoalesced bs
    → request h bs size ≡ some (off, bs')
    → Restored h bs size
malloc-free {h} {bs} {bs'} {off} size r ok e =
    let (p, h', call, a) = subst (Outcome r size) e (malloc_refines r size) in
    let ok' = subst IsCoalesced a.before ok in
    let r' = subst (Represents h') a.result a.after in
    let here : p ≡ h'.head + span a.pre + 8 = omega (arith, a.address, a.offset, a.same_head) in
    let (h'', done, rep) = coalesce-carved a.pre (align size) a.size a.post ok' r' here in
    let back = subst (Represents h'') (sym a.before) rep in
    record {
      ptr = p;
      between = h';
      after = h'';
      allocated = call;
      freed = done;
      blocks = back;
      same_free = omega (arith, back.free_mem, r.free_mem);
      same_allocated = omega (arith, back.allocated_mem, r.allocated_mem);
      same_fragments = omega (arith, back.free_blocks, r.free_blocks);
    }
