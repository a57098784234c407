-- ===== src/Allocator/Replace.antt =====
-- One block of a represented heap, and what a change of that block alone must keep.
use stm32_cli_os.Prelude.{
  ℕ, ◌+◌, ◌%◌, ◌<◌, ◌≤◌, ◌≡◌, ◌⊎◌, refl, List, [], ◌∷◌, ◌++◌, arith, All, All-left, All-right,
  All-append, sum_of, sum_of-append, u32, length-append, if◌then◌else◌,
}
use stm32_cli_os.Memory.{Agree}
use stm32_cli_os.Allocator.{Heap}
use stm32_cli_os.Allocator.Blocks.{
  Block, extent, span, free_bytes, used_bytes, free_count, used_count,
}
use stm32_cli_os.Allocator.Chain.{
  Chain, Chain-right, Chain-replace, IsAligned, Represents, span-bytes, length-counts,
}

-- The sums over a list taken apart in three.
pub record Sums (pre mid post : List Block) : Type 0 where
  pub spans : span (pre ++ (mid ++ post)) ≡ span pre + span mid + span post
  pub frees : free_bytes (pre ++ (mid ++ post)) ≡ free_bytes pre + free_bytes mid + free_bytes post
  pub useds : used_bytes (pre ++ (mid ++ post)) ≡ used_bytes pre + used_bytes mid + used_bytes post
  pub free_counts :
      free_count (pre ++ (mid ++ post)) ≡ free_count pre + free_count mid + free_count post
  pub used_counts :
      used_count (pre ++ (mid ++ post)) ≡ used_count pre + used_count mid + used_count post

sums-three :
    (f : Block → ℕ) (pre mid post : List Block)
    → sum_of f (pre ++ (mid ++ post)) ≡ sum_of f pre + sum_of f mid + sum_of f post
sums-three f pre mid post =
    omega (arith, sum_of-append f pre (mid ++ post), sum_of-append f mid post)

pub sums : (pre mid post : List Block) → Sums pre mid post
sums pre mid post = record {
  spans = sums-three extent pre mid post;
  frees = sums-three (λ b. if b.is_free then b.size else 0) pre mid post;
  useds = sums-three (λ b. if b.is_free then 0 else b.size) pre mid post;
  free_counts = sums-three (λ b. if b.is_free then 1 else 0) pre mid post;
  used_counts = sums-three (λ b. if b.is_free then 0 else 1) pre mid post;
}

-- What is known of the block `b` at address `x`.
pub record At (h : Heap) (x : ℕ) (b : Block) (post : List Block) : Type 0 where
  pub above : 0 < x
  pub address_aligned : x % 4 ≡ 0
  pub size_aligned : b.size % 4 ≡ 0
  pub top : x + 8 + b.size + span post ≡ h.head + h.mem_capacity
  pub memory : h.head + h.mem_capacity < u32
  pub free_part : free_bytes (b ∷ []) ≤ h.free_mem
  pub used_part : used_bytes (b ∷ []) ≤ h.allocated_mem
  pub free_one : free_count (b ∷ []) ≤ h.free_blocks
  pub used_one : used_count (b ∷ []) ≤ h.allocated_blocks
  pub bytes : h.free_mem + h.allocated_mem + 8 ≤ h.mem_capacity
  pub count : h.free_blocks + h.allocated_blocks ≤ h.mem_capacity
  pub chain : Chain h.mem x (b ∷ post)

-- `h'` differs from `h` at most in the `8 + s` bytes from `x` on.
abbrev pub SameOutside : Heap → Heap → ℕ → ℕ → Type 0
SameOutside h h' x s = (p : ℕ) → (p < x) ⊎ (x + 8 + s ≤ p) → h'.mem p ≡ h.mem p

span-aligned : (bs : List Block) → All IsAligned bs → span bs % 4 ≡ 0
span-aligned [] al = refl
span-aligned (b ∷ bs) al = omega (arith, span-aligned bs al.1)

module _ (h : Heap) (pre : List Block) (b : Block) (post : List Block)
    (r : Represents h (pre ++ (b ∷ post))) where
  pub At-block : At h (h.head + span pre) b post
  At-block =
      let bs = pre ++ (b ∷ post) in
      let al = All-right IsAligned pre (b ∷ post) r.aligned in
      let whole = span-aligned pre (All-left IsAligned pre (b ∷ post) r.aligned) in
      let s = sums pre (b ∷ []) post in
      let len = length-append pre (b ∷ post) in
      let bytes = span-bytes bs in
      let counts = length-counts bs in
      record {
        above = omega arith;
        address_aligned = omega arith;
        size_aligned = al.0;
        top = omega arith;
        memory = r.in_memory;
        free_part = omega arith;
        used_part = omega arith;
        free_one = omega arith;
        used_one = omega arith;
        bytes = omega arith;
        count = omega arith;
        chain = Chain-right h.mem h.head pre (b ∷ post) r.chain;
      }

module _ (h : Heap) (pre : List Block) (b : Block) (ds post : List Block)
    (r : Represents h (pre ++ (b ∷ (ds ++ post)))) (h' : Heap) (c : Block) (cs : List Block) where
  -- The changed heap holds the blocks `c ∷ cs` in the place of `b ∷ ds`.
  pub Represents-replace :
      h'.head ≡ h.head
      → h'.mem_capacity ≡ h.mem_capacity
      → span (c ∷ cs) ≡ span (b ∷ ds)
      → All IsAligned (c ∷ cs)
      → Agree h.mem h'.mem h.head (h.head + span pre)
      → Chain h'.mem (h.head + span pre) (c ∷ (cs ++ post))
      → h'.free_mem + free_bytes (b ∷ ds) ≡ h.free_mem + free_bytes (c ∷ cs)
      → h'.allocated_mem + used_bytes (b ∷ ds) ≡ h.allocated_mem + used_bytes (c ∷ cs)
      → h'.free_blocks + free_count (b ∷ ds) ≡ h.free_blocks + free_count (c ∷ cs)
      → h'.allocated_blocks + used_count (b ∷ ds) ≡ h.allocated_blocks + used_count (c ∷ cs)
      → Represents h' (pre ++ (c ∷ (cs ++ post)))
  Represents-replace eh ec sp al same ch e₁ e₂ e₃ e₄ =
      let s = sums pre (b ∷ ds) post in
      let s' = sums pre (c ∷ cs) post in
      let right = All-right IsAligned pre (b ∷ (ds ++ post)) r.aligned in
      record {
        head_pos = rw eh r.head_pos;
        head_aligned = rw eh r.head_aligned;
        capacity = omega arith;
        in_memory = rw (eh, ec) r.in_memory;
        nonempty = omega (arith, length-append pre (c ∷ (cs ++ post)));
        aligned =
            All-append IsAligned pre (c ∷ (cs ++ post))
              (All-left IsAligned pre (b ∷ (ds ++ post)) r.aligned)
              (al.0, All-append IsAligned cs post al.1 (All-right IsAligned ds post right.1));
        chain =
            rw eh
              (Chain-replace h.mem h'.mem h.head pre b c (ds ++ post) (cs ++ post) same r.chain ch);
        free_mem = omega arith;
        allocated_mem = omega arith;
        free_blocks = omega arith;
        allocated_blocks = omega arith;
      }
