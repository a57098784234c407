-- ===== src/Allocator/Free.antt =====
-- `allocator_free` against the list of blocks: the block becomes free, and free runs are joined.
use stm32_cli_os.Prelude.{
  ℕ, ◌+◌, ◌-◌, ◌%◌, ◌<◌, ◌≤◌, ◌≡◌, refl, ◌∙◌, ◌⊎◌, inl, inr, true, false, Option, some, List, [],
  ◌∷◌, ◌++◌, arith, add32, sub32, u32, ==_ne,
}
use stm32_cli_os.Memory.{store32, store32-ne, load32-store32_self}
use stm32_cli_os.Allocator.{
  Heap, null, get_size, update_size_and_free, fuel, merge_loop, release, allocator_free,
}
use stm32_cli_os.Allocator.Blocks.{Block, used_block, free_block, span, coalesce}
use stm32_cli_os.Allocator.Chain.{Chain-retag, Represents, length-le-span}
use stm32_cli_os.Allocator.Data.{InData, KeepsData, InData-header, InData-replace}
use stm32_cli_os.Allocator.Merge.{Merges, merge_loop-Merges}
use stm32_cli_os.Allocator.Replace.{At, At-block, Represents-replace}

-- The heap after the block at `x`, of size `s`, is marked free.
released : Heap → ℕ → ℕ → Heap
released h x s = record h {
  mem = store32 h.mem x (s + 1);
  free_mem = h.free_mem + s;
  allocated_mem = h.allocated_mem - s;
  free_blocks = h.free_blocks + 1;
  allocated_blocks = h.allocated_blocks - 1;
}

module _ (h : Heap) (s x : ℕ) (post : List Block) (a : At h x (used_block s) post) where
  release-eq : release h x ≡ released h x s
  unfolding release released
  release-eq =
      let top = a.top in
      let memory = a.memory in
      let bytes = a.bytes in
      let count = a.count in
      let used : s ≤ h.allocated_mem = omega (arith, a.used_part) in
      let one : 1 ≤ h.allocated_blocks = omega (arith, a.used_one) in
      let sz : s % 4 ≡ 0 = a.size_aligned in
      let small : s + 1 < u32 = omega arith in
      let e₁ : update_size_and_free s 1 ≡ s + 1 = omega arith in
      let e₂ : get_size (s + 1) ≡ s = omega arith in
      let e₃ : add32 h.free_mem s ≡ h.free_mem + s = omega arith in
      let e₄ : sub32 h.allocated_mem s ≡ h.allocated_mem - s = omega arith in
      let e₅ : add32 h.free_blocks 1 ≡ h.free_blocks + 1 = omega arith in
      let e₆ : sub32 h.allocated_blocks 1 ≡ h.allocated_blocks - 1 = omega arith in
      rw (a.chain.0, e₁, load32-store32_self h.mem x (s + 1) small, e₂, e₃, e₄, e₅, e₆)

module _ (h : Heap) (s : ℕ) (pre post : List Block)
    (r : Represents h (pre ++ (used_block s ∷ post))) where
  release-Represents :
      Represents (release h (h.head + span pre)) (pre ++ (free_block s ∷ post))
      × ((p : ℕ)
          → (p < h.head + span pre) ⊎ (h.head + span pre + 8 ≤ p)
          → (release h (h.head + span pre)).mem p ≡ h.mem p)
  unfolding released
  release-Represents =
      let a = At-block h pre (used_block s) post r in
      let x : ℕ = h.head + span pre in
      let top : x + 8 + s < u32 = omega (arith, a.top, a.memory) in
      let used : s ≤ h.allocated_mem = omega (arith, a.used_part) in
      let one : 1 ≤ h.allocated_blocks = omega (arith, a.used_one) in
      rw (release-eq h s x post a) (
        Represents-replace h pre (used_block s) [] post r (released h x s) (free_block s) [] refl
            refl (omega arith) (a.size_aligned, tt)
            (λ p lo hi. store32-ne h.mem x (s + 1) p (inl hi))
            (Chain-retag h.mem x s false true post (omega arith) a.chain) (omega arith)
            (omega arith) (omega arith) (omega arith),
        λ p o. store32-ne h.mem x (s + 1) p (omega arith),
      )

-- What a call that frees the block at `span pre` does.
pub record Freed (h : Heap) (pre : List Block) (s : ℕ) (post : List Block) (result : Option Heap)
    : Type 0 where
  pub after : Heap
  pub ends : result ≡ some after
  pub represents : Represents after (coalesce (pre ++ (free_block s ∷ post)))
  pub same_head : after.head ≡ h.head
  pub keeps : KeepsData h after (pre ++ (free_block s ∷ post))

-- The loop starts at the head of the list.
merge-Freed :
    (h : Heap) (bs : List Block)
    → Represents h bs
    → Merges h bs (merge_loop (fuel h) h h.head) (coalesce bs)
unfolding coalesce
merge-Freed h [] r = elim (r.nonempty) [ ]
merge-Freed h (b ∷ bs) r =
    merge_loop-Merges (fuel h) h [] b bs h.head (omega arith)
      (omega (arith, length-le-span bs, r.capacity)) r

InData-release :
    (p x s : ℕ) (post : List Block)
    → InData p x (free_block s ∷ post)
    → InData p x (used_block s ∷ post)
InData-release p x s post (inl d) = absurd (cc (d.0))
InData-release p x s post (inr d) = inr d

module _ (h : Heap) (s : ℕ) (pre post : List Block)
    (r : Represents h (pre ++ (used_block s ∷ post))) where
  -- In a heap that represents a list with a block in use at the address of its data,
  -- `allocator_free` of that address ends and leaves a heap that represents the list with the block
  -- free and every run of free blocks joined; the head does not move and the data of every block in
  -- use keeps its bytes.
  pub free_refines :
      (ptr : ℕ) → ptr ≡ h.head + span pre + 8 → Freed h pre s post (allocator_free h ptr)
  unfolding allocator_free release
  free_refines ptr e =
      let a = At-block h pre (used_block s) post r in
      let block : sub32 ptr 8 ≡ h.head + span pre = omega (arith, a.top, a.memory) in
      let (marked, out) = release-Represents h s pre post r in
      let m = merge-Freed (release h (h.head + span pre)) _ marked in
      rw (==_ne ptr null (omega arith), block)
        (record {
          after = m.after;
          ends = m.ends;
          represents = m.represents;
          same_head = m.same_head;
          keeps = λ p d.
              m.keeps p d
              ∙ out p (
                  InData-header p h.head pre (used_block s) post (
                    InData-replace p h.head pre (free_block s ∷ post) (used_block s ∷ post)
                      (λ x _ q. InData-release p x s post q) d));
        })
