-- ===== src/Allocator/Resize/Shrink.antt =====
-- `allocator_realloc` to a size that the block holds: it stays where it is.
use stm32_cli_os.Prelude.{
  ℕ, ◌+◌, ◌-◌, ◌%◌, ◌<◌, ◌≤◌, ◌≡◌, refl, ap, ◌∙◌, inl, inr, List, [], ◌∷◌, ◌++◌, arith, add32,
  sub32, u32, leb, leb→le, Bool-cases, if◌then◌else◌,
}
use stm32_cli_os.Memory.{Agree}
use stm32_cli_os.Allocator.{Heap, split_mem}
use stm32_cli_os.Allocator.Blocks.{Block, used_block, free_block, span, carve}
use stm32_cli_os.Allocator.Chain.{Represents, link-lt}
use stm32_cli_os.Allocator.Replace.{SameOutside, At-block, Represents-replace}
use stm32_cli_os.Allocator.Resize.{shrink}
use stm32_cli_os.Allocator.Split.{Chain-split, split_mem-outside}

-- The heap after a split, with the word arithmetic done.
shrunk : Heap → ℕ → ℕ → ℕ → Heap
shrunk h x s n = record h {
  mem = split_mem h.mem x s n;
  free_mem = h.free_mem + (s - n - 8);
  allocated_mem = h.allocated_mem - (s - n);
  free_blocks = h.free_blocks + 1;
}

-- The block keeps its address and its first `n` bytes, and what lies outside it stays.
pub record Shrinks (h : Heap) (pre : List Block) (s n : ℕ) (post : List Block) (h' : Heap)
    : Type 0 where
  pub after : Represents h' (pre ++ (carve n s ++ post))
  pub same : SameOutside h h' (h.head + span pre) s
  pub kept : Agree h.mem h'.mem (h.head + span pre + 8) (h.head + span pre + 8 + n)
  pub same_head : h'.head ≡ h.head

module _ (h : Heap) (pre : List Block) (s n : ℕ) (post : List Block) (hn : n % 4 ≡ 0)
    (r : Represents h (pre ++ (used_block s ∷ post))) where
  shrink-eq :
      n ≤ s
      → shrink h (h.head + span pre) s n
        ≡ (if leb (n + 12) s then shrunk h (h.head + span pre) s n else h)
  unfolding shrink shrunk
  shrink-eq fit =
      let a = At-block h pre (used_block s) post r in
      let top = a.top in
      let memory = a.memory in
      let bytes = a.bytes in
      let count = a.count in
      let used : s ≤ h.allocated_mem = omega (arith, a.used_part) in
      let e₁ : add32 (add32 n 8) 4 ≡ n + 12 = omega arith in
      elim (Bool-cases (leb (n + 12) s)) [
        | inl big ↦
            let room = leb→le _ _ big in
            let d₁ : sub32 s n ≡ s - n = omega arith in
            let d₂ : sub32 (s - n) 8 ≡ s - n - 8 = omega arith in
            let d : sub32 (sub32 s n) 8 ≡ s - n - 8 = ap (λ v. sub32 v 8) d₁ ∙ d₂ in
            let e₂ : add32 (s - n - 8) 8 ≡ s - n = omega arith in
            let e₃ : add32 h.free_mem (s - n - 8) ≡ h.free_mem + (s - n - 8) = omega arith in
            let e₄ : sub32 h.allocated_mem (s - n) ≡ h.allocated_mem - (s - n) = omega arith in
            let e₅ : add32 h.free_blocks 1 ≡ h.free_blocks + 1 = omega arith in
            rw (e₁, big, d, e₂, e₃, e₄, e₅)
        | inr small ↦ rw (e₁, small)
      ]

  shrunk-Shrinks :
      n + 12 ≤ s
      → Represents
          (shrunk h (h.head + span pre) s n)
          (pre ++ (used_block n ∷ free_block (s - n - 8) ∷ post))
        × SameOutside h (shrunk h (h.head + span pre) s n) (h.head + span pre) s
        × Agree h.mem
            (shrunk h (h.head + span pre) s n).mem
            (h.head + span pre + 8)
            (h.head + span pre + 8 + n)
  unfolding shrunk
  shrunk-Shrinks room =
      let a = At-block h pre (used_block s) post r in
      let x : ℕ = h.head + span pre in
      let top : x + 8 + s < u32 = omega (arith, a.top, a.memory) in
      let used : s ≤ h.allocated_mem = omega (arith, a.used_part) in
      let al : s % 4 ≡ 0 = a.size_aligned in
      let small = link-lt (x + 8 + s) post top in
      let out = split_mem-outside h.mem x s n _ hn al room top a.chain.1 small in
      (
        Represents-replace h pre (used_block s) [] post r (shrunk h x s n) (used_block n)
            (free_block (s - n - 8) ∷ []) refl refl (omega arith) (hn, (omega arith, tt))
            (λ p lo hi. out p (inl hi))
            (Chain-split h.mem x n (used_block s) post hn al room top a.chain) (omega arith)
            (omega arith) (omega arith) (omega arith),
        λ p o. out p (omega arith),
        λ p lo hi. out p (inr (inl (lo, hi))),
      )

  pub shrink-Shrinks : n ≤ s → Shrinks h pre s n post (shrink h (h.head + span pre) s n)
  unfolding shrunk
  shrink-Shrinks fit = elim (Bool-cases (leb (n + 12) s)) [
    | inl big ↦
        let (rep, same, kept) = shrunk-Shrinks (leb→le _ _ big) in
        let eq : shrink h (h.head + span pre) s n ≡ shrunk h (h.head + span pre) s n =
          shrink-eq fit ∙ rw big in
        rw eq (record { after = rw big rep; same = same; kept = kept; same_head = refl })
    | inr small ↦
        let eq : shrink h (h.head + span pre) s n ≡ h = shrink-eq fit ∙ rw small in
        rw eq (record {
          after = rw small r;
          same = λ p o. refl;
          kept = λ p lo hi. refl;
          same_head = refl;
        })
  ]
