-- ===== src/Allocator/Coalesce.antt =====
-- The laws of joining free blocks, and of the round trip through a carved block.
use stm32_cli_os.Prelude.{
  ℕ, ◌+◌, ◌-◌, ◌≤◌, ◌≡◌, refl, sym, ap, ◌∙◌, inl, inr, true, false, ◌&&◌, List, [], ◌∷◌, ◌++◌,
  arith, Bool-cases,
}
use stm32_cli_os.Allocator.Blocks.{Block, free_block, coalesce_from, coalesce}
use stm32_cli_os.Allocator.Merge.{coalesce_from-join, coalesce_from-skip, coalesce_from-nil}

-- No two neighbours are free; `b` stands in front of the list.
abbrev pub IsSeparated : Block → List Block → Type 0
IsSeparated b [] = Unit {0}
IsSeparated b (c ∷ cs) = ((b.is_free && c.is_free) ≡ false) × IsSeparated c cs

abbrev pub IsCoalesced : List Block → Type 0
IsCoalesced [] = Unit {0}
IsCoalesced (b ∷ bs) = IsSeparated b bs

coalesce_from-IsSeparated :
    (a b : Block) (bs : List Block)
    → (a.is_free && b.is_free) ≡ false
    → IsSeparated a (coalesce_from b bs)
coalesce_from-IsSeparated a b [] e = rw (coalesce_from-nil b) (e, tt)
coalesce_from-IsSeparated a b (c ∷ cs) e = elim (Bool-cases (b.is_free && c.is_free)) [
  | inl both ↦
      rw (coalesce_from-join b c cs both)
        (coalesce_from-IsSeparated a (free_block (b.size + 8 + c.size)) cs (ground arith))
  | inr apart ↦ rw (coalesce_from-skip b c cs apart) (e, coalesce_from-IsSeparated b c cs apart)
]

coalesce_from-IsCoalesced : (b : Block) (bs : List Block) → IsCoalesced (coalesce_from b bs)
coalesce_from-IsCoalesced b [] = rw (coalesce_from-nil b) tt
coalesce_from-IsCoalesced b (c ∷ cs) = elim (Bool-cases (b.is_free && c.is_free)) [
  | inl both ↦
      rw (coalesce_from-join b c cs both)
        (coalesce_from-IsCoalesced (free_block (b.size + 8 + c.size)) cs)
  | inr apart ↦ rw (coalesce_from-skip b c cs apart) (coalesce_from-IsSeparated b c cs apart)
]

pub coalesce-IsCoalesced : (bs : List Block) → IsCoalesced (coalesce bs)
unfolding coalesce
coalesce-IsCoalesced [] = tt
coalesce-IsCoalesced (b ∷ bs) = coalesce_from-IsCoalesced b bs

coalesce_from-id : (b : Block) (bs : List Block) → IsSeparated b bs → coalesce_from b bs ≡ b ∷ bs
coalesce_from-id b [] s = coalesce_from-nil b
coalesce_from-id b (c ∷ cs) s =
    coalesce_from-skip b c cs s.0 ∙ ap (λ l. b ∷ l) (coalesce_from-id c cs s.1)

pub coalesce-id : (bs : List Block) → IsCoalesced bs → coalesce bs ≡ bs
unfolding coalesce
coalesce-id [] s = refl
coalesce-id (b ∷ bs) s = coalesce_from-id b bs s

-- Two free neighbours may as well be one block.
coalesce_from-pair :
    (a : Block) (n m : ℕ) (post : List Block)
    → coalesce_from a (free_block n ∷ free_block m ∷ post)
      ≡ coalesce_from a (free_block (n + 8 + m) ∷ post)
coalesce_from-pair a n m post = elim (Bool-cases (a.is_free && true)) [
  | inl both ↦
      coalesce_from-join a (free_block n) (free_block m ∷ post) both
      ∙ (coalesce_from-join (free_block (a.size + 8 + n)) (free_block m) post refl
          ∙ (ap (λ k. coalesce_from (free_block k) post) (omega arith)
              ∙ sym (coalesce_from-join a (free_block (n + 8 + m)) post both)))
  | inr apart ↦
      coalesce_from-skip a (free_block n) (free_block m ∷ post) apart
      ∙ (ap (λ l. a ∷ l) (coalesce_from-join (free_block n) (free_block m) post refl)
          ∙ sym (coalesce_from-skip a (free_block (n + 8 + m)) post apart))
]

coalesce_from-fuse :
    (a : Block) (pre : List Block) (n m : ℕ) (post : List Block)
    → coalesce_from a (pre ++ (free_block n ∷ free_block m ∷ post))
      ≡ coalesce_from a (pre ++ (free_block (n + 8 + m) ∷ post))
coalesce_from-fuse a [] n m post = coalesce_from-pair a n m post
coalesce_from-fuse a (p ∷ pre) n m post = elim (Bool-cases (a.is_free && p.is_free)) [
  | inl both ↦
      coalesce_from-join a p _ both
      ∙ (coalesce_from-fuse (free_block (a.size + 8 + p.size)) pre n m post
          ∙ sym (coalesce_from-join a p _ both))
  | inr apart ↦
      coalesce_from-skip a p _ apart
      ∙ (ap (λ l. a ∷ l) (coalesce_from-fuse p pre n m post) ∙ sym (coalesce_from-skip a p _ apart))
]

pub coalesce-fuse :
    (pre : List Block) (n m : ℕ) (post : List Block)
    → coalesce (pre ++ (free_block n ∷ free_block m ∷ post))
      ≡ coalesce (pre ++ (free_block (n + 8 + m) ∷ post))
unfolding coalesce
coalesce-fuse [] n m post = coalesce_from-join (free_block n) (free_block m) post refl
coalesce-fuse (p ∷ pre) n m post = coalesce_from-fuse p pre n m post

-- Freeing a block that was carved out of a free one gives the free one back.
pub coalesce-carve :
    (pre : List Block) (n s : ℕ) (post : List Block)
    → n + 12 ≤ s
    → coalesce (pre ++ (free_block n ∷ free_block (s - n - 8) ∷ post))
      ≡ coalesce (pre ++ (free_block s ∷ post))
coalesce-carve pre n s post room =
    coalesce-fuse pre n (s - n - 8) post
    ∙ ap (λ k. coalesce (pre ++ (free_block k ∷ post))) (omega arith)
