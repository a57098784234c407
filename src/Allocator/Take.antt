-- ===== src/Allocator/Take.antt =====
-- The block that `allocator_malloc` found, used whole or split.
use stm32_cli_os.Prelude.{
  ℕ, ◌+◌, ◌-◌, ◌%◌, ◌<◌, ◌≤◌, ◌≡◌, refl, inl, inr, true, false, List, [], ◌∷◌, ◌++◌, arith, add32,
  sub32, u32, leb, Bool-cases, leb→le, if◌then◌else◌,
}
use stm32_cli_os.Memory.{load32, store32, store32-ne}
use stm32_cli_os.Allocator.{Heap, take_block, split_mem, get_size, update_size_and_free}
use stm32_cli_os.Allocator.Blocks.{Block, used_block, free_block, span, carve}
use stm32_cli_os.Allocator.Chain.{Represents, Chain-retag, link-lt}
use stm32_cli_os.Allocator.Split.{Chain-split, split_mem-outside}
use stm32_cli_os.Allocator.Replace.{At, SameOutside, At-block, Represents-replace}

-- The two outcomes, with the word arithmetic done.
split_heap : Heap → ℕ → ℕ → ℕ → Heap
split_heap h x n s = record h {
  mem = split_mem h.mem x s n;
  free_mem = h.free_mem - (n + 8);
  allocated_mem = h.allocated_mem + n;
  allocated_blocks = h.allocated_blocks + 1;
}

whole_heap : Heap → ℕ → ℕ → Heap
whole_heap h x s = record h {
  mem = store32 h.mem x s;
  free_mem = h.free_mem - s;
  allocated_mem = h.allocated_mem + s;
  free_blocks = h.free_blocks - 1;
  allocated_blocks = h.allocated_blocks + 1;
}

module _ (h : Heap) (n s x : ℕ) (post : List Block) (hn : n % 4 ≡ 0) (fit : n ≤ s)
    (a : At h x (free_block s) post) where
  take_block-eq :
      take_block h x n ≡ (x + 8, if leb (n + 12) s then split_heap h x n s else whole_heap h x s)
  unfolding take_block split_heap whole_heap
  take_block-eq =
      let top = a.top in
      let memory = a.memory in
      let bytes = a.bytes in
      let count = a.count in
      let free : s ≤ h.free_mem = omega (arith, a.free_part) in
      let one : 1 ≤ h.free_blocks = omega (arith, a.free_one) in
      let sz : s % 4 ≡ 0 = a.size_aligned in
      let size : get_size (load32 h.mem x) ≡ s = rw a.chain.0 (omega arith) in
      let e₁ : add32 (add32 n 8) 4 ≡ n + 12 = omega arith in
      let e₂ : add32 x 8 ≡ x + 8 = omega arith in
      let e₃ : update_size_and_free s 0 ≡ s = omega arith in
      let e₄ : sub32 h.free_mem s ≡ h.free_mem - s = omega arith in
      let e₅ : add32 h.allocated_mem s ≡ h.allocated_mem + s = omega arith in
      let e₆ : sub32 h.free_blocks 1 ≡ h.free_blocks - 1 = omega arith in
      let e₇ : add32 h.allocated_blocks 1 ≡ h.allocated_blocks + 1 = omega arith in
      let e₈ : add32 n 8 ≡ n + 8 = omega arith in
      let e₉ : add32 h.allocated_mem n ≡ h.allocated_mem + n = omega arith in
      let e₀ : leb (n + 12) s ≡ true → sub32 h.free_mem (n + 8) ≡ h.free_mem - (n + 8) =
        λ t. omega (arith, leb→le _ _ t) in
      elim (Bool-cases (leb (n + 12) s)) [
        | inl big ↦ rw (size, e₁, big, e₂, e₈, e₀ big, e₉, e₇)
        | inr small ↦ rw (size, e₁, small, e₂, e₃, e₄, e₅, e₆, e₇)
      ]

module _ (h : Heap) (n s : ℕ) (pre post : List Block) (hn : n % 4 ≡ 0) (fit : n ≤ s)
    (r : Represents h (pre ++ (free_block s ∷ post))) where
  split_heap-Represents :
      n + 12 ≤ s
      → Represents
          (split_heap h (h.head + span pre) n s)
          (pre ++ (used_block n ∷ free_block (s - n - 8) ∷ post))
        × SameOutside h (split_heap h (h.head + span pre) n s) (h.head + span pre) s
  unfolding split_heap
  split_heap-Represents room =
      let a = At-block h pre (free_block s) post r in
      let x : ℕ = h.head + span pre in
      let top : x + 8 + s < u32 = omega (arith, a.top, a.memory) in
      let free : s ≤ h.free_mem = omega (arith, a.free_part) in
      let al : s % 4 ≡ 0 = a.size_aligned in
      let small = link-lt (x + 8 + s) post top in
      let out = split_mem-outside h.mem x s n _ hn al room top a.chain.1 small in
      (
        Represents-replace h pre (free_block s) [] post r (split_heap h x n s) (used_block n)
            (free_block (s - n - 8) ∷ []) refl refl (omega arith) (hn, (omega arith, tt))
            (λ p lo hi. out p (inl hi))
            (Chain-split h.mem x n (free_block s) post hn al room top a.chain) (omega arith)
            (omega arith) (omega arith) (omega arith),
        λ p o. out p (omega arith),
      )

  whole_heap-Represents :
      Represents (whole_heap h (h.head + span pre) s) (pre ++ (used_block s ∷ post))
      × SameOutside h (whole_heap h (h.head + span pre) s) (h.head + span pre) s
  unfolding whole_heap
  whole_heap-Represents =
      let a = At-block h pre (free_block s) post r in
      let x : ℕ = h.head + span pre in
      let top : x + 8 + s < u32 = omega (arith, a.top, a.memory) in
      let free : s ≤ h.free_mem = omega (arith, a.free_part) in
      let one : 1 ≤ h.free_blocks = omega (arith, a.free_one) in
      (
        Represents-replace h pre (free_block s) [] post r (whole_heap h x s) (used_block s) [] refl
            refl (omega arith) (a.size_aligned, tt) (λ p lo hi. store32-ne h.mem x s p (inl hi))
            (Chain-retag h.mem x s true false post (omega arith) a.chain) (omega arith)
            (omega arith) (omega arith) (omega arith),
        λ p o. store32-ne h.mem x s p (omega arith),
      )

  -- The block is used, and nothing else changes.
  pub take_block-Represents :
      let x = h.head + span pre in
      let (p, h') = take_block h x n in
      (p ≡ x + 8) × Represents h' (pre ++ (carve n s ++ post)) × SameOutside h h' x s
  take_block-Represents =
      let a = At-block h pre (free_block s) post r in
      rw (take_block-eq h n s (h.head + span pre) post hn fit a)
        (elim (Bool-cases (leb (n + 12) s)) [
          | inl big ↦
              let (rep, same) = split_heap-Represents (leb→le _ _ big) in rw big (refl, rep, same)
          | inr small ↦ let (rep, same) = whole_heap-Represents in rw small (refl, rep, same)
        ])
