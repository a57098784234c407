-- ===== src/Allocator/InPlace.antt =====
-- A block in use keeps its place when another one is freed and free runs are joined.
use stm32_cli_os.Prelude.{
  ℕ, ◌+◌, ◌≡◌, ◌≢◌, refl, ap, sym, ◌∙◌, inl, inr, ◌&&◌, List, [], ◌∷◌, ◌++◌, arith, Bool-cases,
  subst,
}
use stm32_cli_os.Allocator.Blocks.{
  Block, used_block, free_block, extent, span, coalesce_from, coalesce,
}
use stm32_cli_os.Allocator.Locate.{cons_parts}
use stm32_cli_os.Allocator.Merge.{coalesce_from-join, coalesce_from-skip, coalesce_from-nil}

-- A block in use of size `n` at offset `off`.
pub record UsedAt (n off : ℕ) (bs : List Block) : Type 0 where
  pub before : List Block
  pub after : List Block
  pub blocks : bs ≡ before ++ (used_block n ∷ after)
  pub offset : span before ≡ off

UsedAt-cons :
    (b : Block) {n off off' : ℕ} {bs : List Block}
    → extent b + off ≡ off'
    → UsedAt n off bs
    → UsedAt n off' (b ∷ bs)
UsedAt-cons b e u = record {
  before = b ∷ u.before;
  after = u.after;
  blocks = ap (λ l. b ∷ l) u.blocks;
  offset = omega (arith, u.offset, e);
}

-- Another block in use is freed.
pub free-UsedAt :
    (pre post pre₂ post₂ : List Block) (n s : ℕ)
    → span pre ≢ span pre₂
    → pre ++ (used_block n ∷ post) ≡ pre₂ ++ (used_block s ∷ post₂)
    → UsedAt n (span pre) (pre₂ ++ (free_block s ∷ post₂))
free-UsedAt [] post [] post₂ n s apart e = absurd (apart refl)
free-UsedAt [] post (c ∷ pre₂) post₂ n s apart e =
    let (head, tail) = cons_parts (used_block n) c post (pre₂ ++ (used_block s ∷ post₂)) e in
    record {
      before = [];
      after = pre₂ ++ (free_block s ∷ post₂);
      blocks = ap (λ b. b ∷ (pre₂ ++ (free_block s ∷ post₂))) (sym head);
      offset = refl;
    }
free-UsedAt (b ∷ pre) post [] post₂ n s apart e =
    let (head, tail) = cons_parts b (used_block s) (pre ++ (used_block n ∷ post)) post₂ e in
    record {
      before = free_block s ∷ pre;
      after = post;
      blocks = ap (λ l. free_block s ∷ l) (sym tail);
      offset = omega (arith, ap (λ (b : Block). b.size) head);
    }
free-UsedAt (b ∷ pre) post (c ∷ pre₂) post₂ n s apart e =
    let (head, tail) = cons_parts b c _ _ e in
    let same : b.size ≡ c.size = ap (λ (x : Block). x.size) head in
    UsedAt-cons c (omega (arith, same))
      (free-UsedAt pre post pre₂ post₂ n s (λ f. apart (omega (arith, same, f))) tail)

coalesce_from-used :
    (n : ℕ) (post : List Block) → coalesce_from (used_block n) post ≡ used_block n ∷ coalesce post
unfolding coalesce
coalesce_from-used n [] = coalesce_from-nil (used_block n)
coalesce_from-used n (c ∷ cs) = coalesce_from-skip (used_block n) c cs refl

coalesce_from-UsedAt :
    (b : Block) (pre post : List Block) (n : ℕ)
    → UsedAt n (extent b + span pre) (coalesce_from b (pre ++ (used_block n ∷ post)))
coalesce_from-UsedAt b [] post n =
    let skip = coalesce_from-skip b (used_block n) post (ground arith) in
    record {
      before = b ∷ [];
      after = coalesce post;
      blocks = skip ∙ ap (λ l. b ∷ l) (coalesce_from-used n post);
      offset = omega arith;
    }
coalesce_from-UsedAt b (c ∷ pre) post n = elim (Bool-cases (b.is_free && c.is_free)) [
  | inl both ↦
      let joined : Block = free_block (b.size + 8 + c.size) in
      let place : extent joined + span pre ≡ extent b + span (c ∷ pre) = omega arith in
      rw (coalesce_from-join b c (pre ++ (used_block n ∷ post)) both) (
        subst (λ off. UsedAt n off (coalesce_from joined (pre ++ (used_block n ∷ post)))) place
          (coalesce_from-UsedAt joined pre post n))
  | inr apart ↦
      rw (coalesce_from-skip b c (pre ++ (used_block n ∷ post)) apart)
        (UsedAt-cons b refl (coalesce_from-UsedAt c pre post n))
]

-- Free runs are joined.
pub coalesce-UsedAt : {n off : ℕ} {bs : List Block} → UsedAt n off bs → UsedAt n off (coalesce bs)
unfolding coalesce
coalesce-UsedAt {n} {off} {bs} u =
    subst (λ l. UsedAt n off (coalesce l)) (sym u.blocks)
      (subst (λ x. UsedAt n x (coalesce (u.before ++ (used_block n ∷ u.after)))) u.offset
        (at u.before))
  where
    at : (pre : List Block) → UsedAt n (span pre) (coalesce (pre ++ (used_block n ∷ u.after)))
    at [] = record {
      before = [];
      after = coalesce u.after;
      blocks = coalesce_from-used n u.after;
      offset = refl;
    }
    at (b ∷ pre) = coalesce_from-UsedAt b pre u.after n
