-- ===== src/Allocator/Split.antt =====
-- The header writes of a split, shared by `allocator_malloc` and `allocator_realloc`.
use stm32_cli_os.Prelude.{
  ℕ, ◌+◌, ◌-◌, ◌%◌, ◌<◌, ◌≤◌, ◌≡◌, ap, ◌∙◌, ◌⊎◌, inl, inr, List, ◌∷◌, arith, add32, sub32, u32,
}
use stm32_cli_os.Memory.{Mem, load32, store32, store32-ne, load32-store32_self, load32-store32_ne}
use stm32_cli_os.Allocator.{split_mem, update_size_and_free}
use stm32_cli_os.Allocator.Blocks.{Block, used_block, free_block}
use stm32_cli_os.Allocator.Chain.{Chain, Chain-frame, link-lt}

-- The four stores, with the word arithmetic done.
split_stores : Mem → ℕ → ℕ → ℕ → ℕ → Mem
split_stores m x s n t =
    store32
      (store32 (store32 (store32 m (x + 8 + n) (s - n - 8 + 1)) (x + 8 + n + 4) t) (x + 4)
        (x + 8 + n))
      x n

module _ (m : Mem) (x s n t : ℕ) (hn : n % 4 ≡ 0) (hs : s % 4 ≡ 0) (room : n + 12 ≤ s)
    (top : x + 8 + s < u32) (succ : load32 m (x + 4) ≡ t) (small : t < u32) where
  split_mem-stores : split_mem m x s n ≡ split_stores m x s n t
  unfolding split_stores
  split_mem-stores =
      let e₁ : add32 (add32 x 8) n ≡ x + 8 + n = omega arith in
      let d₁ : sub32 s n ≡ s - n = omega arith in
      let d₂ : sub32 (s - n) 8 ≡ s - n - 8 = omega arith in
      let d₃ : sub32 (sub32 s n) 8 ≡ s - n - 8 = ap (λ v. sub32 v 8) d₁ ∙ d₂ in
      let e₂ : update_size_and_free (sub32 (sub32 s n) 8) 1 ≡ s - n - 8 + 1 =
        ap (λ v. update_size_and_free v 1) d₃ ∙ omega arith in
      let e₃ : update_size_and_free n 0 ≡ n = omega arith in
      let e₄ : load32 (store32 m (x + 8 + n) (s - n - 8 + 1)) (x + 4) ≡ t =
        load32-store32_ne m (x + 8 + n) (x + 4) (s - n - 8 + 1) (inl (omega arith)) ∙ succ in
      rw (e₁, e₂, e₃, e₄)

  pub split_mem-outside :
      (p : ℕ)
      → (p < x) ⊎ ((x + 8 ≤ p) × (p < x + 8 + n)) ⊎ (x + 8 + s ≤ p)
      → split_mem m x s n p ≡ m p
  unfolding split_stores
  split_mem-outside p h = rw (
    split_mem-stores,
    store32-ne _ x n p (omega arith),
    store32-ne _ (x + 4) (x + 8 + n) p (omega arith),
    store32-ne _ (x + 8 + n + 4) t p (omega arith),
    store32-ne m (x + 8 + n) (s - n - 8 + 1) p (omega arith),
  )

  split_mem-headers :
      (load32 (split_mem m x s n) x ≡ n)
      × (load32 (split_mem m x s n) (x + 4) ≡ x + 8 + n)
      × (load32 (split_mem m x s n) (x + 8 + n) ≡ s - n - 8 + 1)
      × (load32 (split_mem m x s n) (x + 8 + n + 4) ≡ t)
  unfolding split_stores
  split_mem-headers = rw split_mem-stores (
    load32-store32_self _ x n (omega arith),
    rw (
      load32-store32_ne _ x (x + 4) n (omega arith),
      load32-store32_self _ (x + 4) (x + 8 + n) (omega arith),
    ),
    rw (
      load32-store32_ne _ x (x + 8 + n) n (omega arith),
      load32-store32_ne _ (x + 4) (x + 8 + n) (x + 8 + n) (omega arith),
      load32-store32_ne _ (x + 8 + n + 4) (x + 8 + n) t (omega arith),
      load32-store32_self m (x + 8 + n) (s - n - 8 + 1) (omega arith),
    ),
    rw (
      load32-store32_ne _ x (x + 8 + n + 4) n (omega arith),
      load32-store32_ne _ (x + 4) (x + 8 + n + 4) (x + 8 + n) (omega arith),
      load32-store32_self _ (x + 8 + n + 4) t (omega arith),
    ),
  )

-- A block of size `s` becomes a used block of size `n` and a free block with the rest.
pub Chain-split :
    (m : Mem) (x n : ℕ) (b : Block) (post : List Block)
    → n % 4 ≡ 0
    → b.size % 4 ≡ 0
    → n + 12 ≤ b.size
    → x + 8 + b.size < u32
    → Chain m x (b ∷ post)
    → Chain (split_mem m x b.size n) x (used_block n ∷ free_block (b.size - n - 8) ∷ post)
Chain-split m x n b post hn hs room top c =
    let small = link-lt (x + 8 + b.size) post top in
    let (w₁, w₂, w₃, w₄) = split_mem-headers m x b.size n _ hn hs room top c.1 small in
    let end : x + 8 + n + 8 + (b.size - n - 8) ≡ x + 8 + b.size = omega arith in
    (
      w₁,
      w₂,
      (
        w₃,
        rw end w₄,
        rw end (
            Chain-frame m _ (x + 8 + b.size) post
              (λ p lo hi.
                split_mem-outside m x b.size n _ hn hs room top c.1 small p (inr (inr lo)))
              c.2),
      ),
    )
