-- ===== src/Allocator/Locate.antt =====
-- A used block stays where it is when another block, a free one, is replaced.
use stm32_cli_os.Prelude.{
  ℕ, ◌+◌, ◌≤◌, ◌≡◌, refl, ap, sym, ◌∙◌, ◌⊎◌, inl, inr, List, [], ◌∷◌, ◌++◌, append_assoc, arith,
  sum_of-append,
}
use stm32_cli_os.Allocator.Blocks.{Block, used_block, free_block, extent, span}

pub cons_parts : (x y : Block) (xs ys : List Block) → x ∷ xs ≡ y ∷ ys → (x ≡ y) × (xs ≡ ys)
cons_parts x y xs ys e = (cc, cc)

-- The used block of size `s` at offset `off` in `bs`, apart from `8 + t` bytes from `other` on.
pub record Kept (s off t other : ℕ) (bs : List Block) : Type 0 where
  pub before : List Block
  pub after : List Block
  pub blocks : bs ≡ before ++ (used_block s ∷ after)
  pub offset : span before ≡ off
  pub apart : (off + 8 + s ≤ other) ⊎ (other + 8 + t ≤ off)

Kept-cons :
    (b : Block) {s off t other : ℕ} {bs : List Block}
    → Kept s off t other bs
    → Kept s (extent b + off) t (extent b + other) (b ∷ bs)
Kept-cons b k = record {
  before = b ∷ k.before;
  after = k.after;
  blocks = ap (λ l. b ∷ l) k.blocks;
  offset = omega (arith, k.offset);
  apart = omega (arith, k.apart);
}

pub locate :
    (pre post pre₂ post₂ new : List Block) (s t : ℕ)
    → span new ≡ 8 + t
    → pre ++ (used_block s ∷ post) ≡ pre₂ ++ (free_block t ∷ post₂)
    → Kept s (span pre) t (span pre₂) (pre₂ ++ (new ++ post₂))
locate [] post [] post₂ new s t len e =
    absurd (cc (ap (λ (b : Block). b.is_free) (cons_parts _ _ _ _ e).0))
locate [] post (c ∷ pre₂) post₂ new s t len e =
    let (head, tail) = cons_parts (used_block s) c post (pre₂ ++ (free_block t ∷ post₂)) e in
    record {
      before = [];
      after = pre₂ ++ (new ++ post₂);
      blocks = ap (λ b. b ∷ (pre₂ ++ (new ++ post₂))) (sym head);
      offset = refl;
      apart = inl (omega (arith, ap (λ (b : Block). b.size) head));
    }
locate (b ∷ pre) post [] post₂ new s t len e =
    let (head, tail) = cons_parts b (free_block t) (pre ++ (used_block s ∷ post)) post₂ e in
    record {
      before = new ++ pre;
      after = post;
      blocks = ap (λ l. new ++ l) (sym tail) ∙ sym (append_assoc new pre (used_block s ∷ post));
      offset = omega (arith, sum_of-append extent new pre, len, ap (λ (b : Block). b.size) head);
      apart = inr (omega (arith, ap (λ (b : Block). b.size) head));
    }
locate (b ∷ pre) post (c ∷ pre₂) post₂ new s t len e =
    let (head, tail) = cons_parts b c _ _ e in
    let k = locate pre post pre₂ post₂ new s t len tail in rw head (Kept-cons c k)
