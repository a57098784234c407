-- ===== src/Allocator/Resize/Carve.antt =====
-- Lemmas on the new block of a growing `allocator_realloc`, and on data in blocks.
use stm32_cli_os.Prelude.{
  ℕ, ◌+◌, ◌-◌, ◌<◌, ◌≤◌, ◌≡◌, refl, ◌∙◌, ◌⊎◌, inl, inr, List, [], ◌∷◌, ◌++◌, arith, leb, leb→le,
  Bool-cases,
}
use stm32_cli_os.Memory.{Mem, Agree, load32-Agree}
use stm32_cli_os.Allocator.{Heap}
use stm32_cli_os.Allocator.Blocks.{Block, used_block, free_block, span, carve}
use stm32_cli_os.Allocator.Chain.{Chain-frame, Represents}
use stm32_cli_os.Allocator.Data.{InData}
use stm32_cli_os.Allocator.Replace.{At-block, Represents-replace}

-- The first of the carved blocks is the one in use.
pub record Carved (n s : ℕ) : Type 0 where
  pub size : ℕ
  pub rest : List Block
  pub blocks : carve n s ≡ used_block size ∷ rest
  pub enough : n ≤ size
  pub within : size ≤ s
  pub length : span (carve n s) ≡ 8 + s

pub carve-Carved : (n s : ℕ) → n ≤ s → Carved n s
carve-Carved n s fit = elim (Bool-cases (leb (n + 12) s)) [
  | inl big ↦ record {
    size = n;
    rest = free_block (s - n - 8) ∷ [];
    blocks = rw big;
    enough = omega arith;
    within = fit;
    length = rw big (omega (arith, leb→le (n + 12) s big));
  }
  | inr small ↦ record {
    size = s;
    rest = [];
    blocks = rw small;
    enough = fit;
    within = omega arith;
    length = rw small (omega arith);
  }
]

-- New data in a block leaves the list of blocks.
pub Represents-data :
    (h : Heap) (pre : List Block) (b : Block) (post : List Block) (m : Mem)
    → Represents h (pre ++ (b ∷ post))
    → ((p : ℕ) → (p < h.head + span pre + 8) ⊎ (h.head + span pre + 8 + b.size ≤ p) → m p ≡ h.mem p)
    → Represents (record h { mem = m }) (pre ++ (b ∷ post))
Represents-data h pre b post m r out =
    let a = At-block h pre b post r in
    let x : ℕ = h.head + span pre in
    let low : Agree h.mem m x (x + 8) = λ p lo hi. out p (inl hi) in
    Represents-replace h pre b [] post r (record h { mem = m }) b [] refl refl refl
      (a.size_aligned, tt) (λ p lo hi. out p (inl (omega arith)))
      (
        load32-Agree h.mem m x x (x + 8) low (omega arith) (omega arith) ∙ a.chain.0,
        load32-Agree h.mem m (x + 4) x (x + 8) low (omega arith) (omega arith) ∙ a.chain.1,
        Chain-frame h.mem m (x + 8 + b.size) post (λ p lo hi. out p (inr lo)) a.chain.2,
      )
      refl refl refl refl

pub InData-here :
    (p a : ℕ) (pre : List Block) (s : ℕ) (post : List Block)
    → a + span pre + 8 ≤ p
    → p < a + span pre + 8 + s
    → InData p a (pre ++ (used_block s ∷ post))
InData-here p a [] s post lo hi = inl (refl, omega arith, omega arith)
InData-here p a (b ∷ pre) s post lo hi =
    inr (InData-here p (a + 8 + b.size) pre s post (omega arith) (omega arith))

-- Data outside the old block is still data once that is free.
pub InData-other :
    (p x s : ℕ) (post : List Block)
    → (p < x + 8) ⊎ (x + 8 + s ≤ p)
    → InData p x (used_block s ∷ post)
    → InData p x (free_block s ∷ post)
InData-other p x s post o (inl d) = absurd (omega (arith, d.1, d.2))
InData-other p x s post o (inr d) = inr d
