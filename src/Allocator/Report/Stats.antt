-- ===== src/Allocator/Report/Stats.antt =====
-- What `allocator_get_stats` reports of a represented heap.
use stm32_cli_os.Prelude.{
  ℕ, zero, suc, ◌+◌, ◌*◌, ◌<◌, ◌≤◌, ◌≡◌, ◌≢◌, ◌==◌, ◌⊎◌, inl, inr, refl, sym, subst, ◌&&◌, some,
  List, [], ◌∷◌, arith, All, length, ltb, ==_ne, if◌then◌else◌, Bool-cases,
}
use stm32_cli_os.Memory.{Mem, load32}
use stm32_cli_os.Allocator.{Heap, null, get_size, fuel}
use stm32_cli_os.Allocator.Blocks.{Block, span, free_bytes, used_bytes, free_count, used_count}
use stm32_cli_os.Allocator.Chain.{link, Chain, IsAligned, Represents, length-le-span, span-bytes}
use stm32_cli_os.Allocator.Find.{get_size-tag, get_free-tag}
use stm32_cli_os.Allocator.Malloc.{link-head}
use stm32_cli_os.Allocator.Report.{
  ok, HeapStats, stats_with, largest_loop, allocator_get_largest_free_block, allocator_get_stats,
}

-- The size of the largest free block, 0 if there is none.
abbrev pub largest_from : ℕ → List Block → ℕ
largest_from n [] = n
largest_from n (b ∷ bs) = largest_from (if b.is_free && ltb n b.size then b.size else n) bs

-- `best` is the address of a block of size `n`, or `NULL` with `n` zero.
abbrev Names : Mem → ℕ → ℕ → Type 0
Names m best n = (best ≡ null) × (n ≡ 0) ⊎ (best ≢ null) × (get_size (load32 m best) ≡ n)

largest_loop-Names :
    (k : ℕ) (m : Mem) (a best n : ℕ) (bs : List Block)
    → length bs < k
    → 0 < a
    → All IsAligned bs
    → Chain m a bs
    → Names m best n
    → (r : ℕ) × (largest_loop k m (link a bs) best n ≡ some r) × Names m r (largest_from n bs)
unfolding largest_loop
largest_loop-Names zero m a best n bs lt pos al c w = elim lt [ ]
largest_loop-Names (suc k) m a best n [] lt pos al c w = (best, refl, w)
largest_loop-Names (suc k) m a best n (b ∷ bs) lt pos al c w =
    let live = ==_ne a null (omega arith) in
    rw (live, c.0, c.1, get_size-tag b al.0, get_free-tag b al.0)
      (elim (Bool-cases (b.is_free && ltb n b.size)) [
        | inl better ↦ rw better (
            largest_loop-Names k m (a + 8 + b.size) a b.size bs (omega arith) (omega arith) al.1 c.2
              (inr (omega arith, rw c.0 (get_size-tag b al.0))))
        | inr worse ↦ rw worse (
            largest_loop-Names k m (a + 8 + b.size) best n bs (omega arith) (omega arith) al.1 c.2
              w)
      ])

largest_from-ge : (n : ℕ) (bs : List Block) → n ≤ largest_from n bs
largest_from-ge n [] = omega arith
largest_from-ge n (b ∷ bs) = ground (arith, largest_from-ge n bs, largest_from-ge b.size bs)

Names-size :
    (m : Mem) (best n : ℕ)
    → Names m best n
    → (if best == null then 0 else get_size (load32 m best)) ≡ n
Names-size m best n (inl e) = rw e.0 (sym e.1)
Names-size m best n (inr e) = rw (==_ne best null e.0) e.1

-- The fields of the report, in terms of the blocks.
pub record Reports (bs : List Block) (s : HeapStats) : Type 0 where
  pub total_size : s.total_size ≡ span bs
  pub free_size : s.free_size ≡ free_bytes bs
  pub used_size : s.used_size ≡ used_bytes bs + 8 * length bs
  pub largest_free_block : s.largest_free_block ≡ largest_from 0 bs
  pub allocated_blocks : s.allocated_blocks ≡ used_count bs
  pub free_blocks : s.free_blocks ≡ free_count bs

module _ {h : Heap} {bs : List Block} (r : Represents h bs) where
  -- In a represented heap `allocator_get_stats` succeeds and reports the span, the free bytes, the
  -- used bytes with all headers, the size of the largest free block (0 if none) and the two counts
  -- of blocks.
  pub stats_report : (s : HeapStats) × (allocator_get_stats h ≡ some (ok, s)) × Reports bs s
  unfolding allocator_get_stats allocator_get_largest_free_block
  stats_report =
      let (best, loop, names) =
        largest_loop-Names (fuel h) h.mem h.head null 0 bs
          (omega (arith, length-le-span bs, r.capacity)) r.head_pos r.aligned r.chain
          (inl (refl, refl)) in
      let live = ==_ne h.head null (omega (arith, r.head_pos)) in
      let loop' =
        subst (λ a. largest_loop (fuel h) h.mem a null 0 ≡ some best)
          (link-head h.head bs r.nonempty) loop in
      (
        stats_with h best,
        rw (live, loop'),
        record {
          total_size = sym r.capacity;
          free_size = r.free_mem;
          used_size = omega (arith, r.capacity, r.free_mem, span-bytes bs, r.in_memory);
          largest_free_block = Names-size h.mem best _ names;
          allocated_blocks = r.allocated_blocks;
          free_blocks = r.free_blocks;
        },
      )
