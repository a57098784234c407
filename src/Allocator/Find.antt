-- ===== src/Allocator/Find.antt =====
-- The search of `allocator_malloc`: the loop stops at the block that `first_fit` names.
use stm32_cli_os.Prelude.{
  ℕ, zero, suc, ◌+◌, ◌<◌, ◌≡◌, refl, inl, inr, true, false, Option, none, some, List, [], ◌∷◌, ◌++◌,
  arith, ap, All, length, Bool-cases, Option-cases, ==_ne, some_pair,
}
use stm32_cli_os.Allocator.{Heap, null, get_size, get_free, malloc_loop, take_block}
use stm32_cli_os.Allocator.Blocks.{Block, extent, span, carve, fits, first_fit}
use stm32_cli_os.Allocator.Chain.{tag, link, Chain, IsAligned}

-- The header word gives back the size and the flag.
pub get_size-tag : (b : Block) → IsAligned b → get_size (tag b) ≡ b.size
get_size-tag b h = ground arith

pub get_free-tag : (b : Block) → IsAligned b → get_free (tag b) ≡ b.is_free
get_free-tag b h = ground arith

-- A block of the list, with what lies before and behind it.
pub record Found (n : ℕ) (bs : List Block) (off : ℕ) (bs' : List Block) : Type 0 where
  pub pre : List Block
  pub block : Block
  pub post : List Block
  pub split : bs ≡ pre ++ (block ∷ post)
  pub offset : off ≡ span pre
  pub result : bs' ≡ pre ++ (carve n block.size ++ post)
  pub fit : fits n block ≡ true
  pub first : All (λ p. fits n p ≡ false) pre

Found-cons :
    (n : ℕ) (b : Block) {bs bs' : List Block} {off : ℕ}
    → fits n b ≡ false
    → Found n bs off bs'
    → Found n (b ∷ bs) (extent b + off) (b ∷ bs')
Found-cons n b miss f = record {
  pre = b ∷ f.pre;
  block = f.block;
  post = f.post;
  split = cc (f.split);
  offset = omega (arith, f.offset);
  result = cc (f.result);
  fit = f.fit;
  first = (miss, f.first);
}

-- `first_fit` names the first block that is free and large enough, and replaces it alone.
pub first_fit-Found :
    (n : ℕ) (bs : List Block) {off : ℕ} {bs' : List Block}
    → first_fit n bs ≡ some (off, bs')
    → Found n bs off bs'
unfolding first_fit
first_fit-Found n [] e = cc
first_fit-Found n (b ∷ bs) {off} {bs'} e = elim (Bool-cases (fits n b)) [
  | inl hit ↦
      let (p, q) = some_pair {a = 0} {b = carve n b.size ++ bs} (rw hit at e) in
      record {
        pre = [];
        block = b;
        post = bs;
        split = refl;
        offset = p;
        result = q;
        fit = hit;
        first = tt;
      }
  | inr miss ↦ elim (Option-cases (first_fit n bs)) [
    | inl nothing ↦ ground arith
    | inr ((off₁, bs₁), found) ↦
        let (p, q) = some_pair {a = extent b + off₁} {b = b ∷ bs₁} (rw (miss, found) at e) in
        rw (p, q) (Found-cons n b miss (first_fit-Found n bs found))
  ]
]

-- Where the loop ends for what `first_fit` found in the blocks from `a` on.
abbrev pub stop : ℕ → Heap → ℕ → Option (ℕ × List Block) → Option (ℕ × Heap)
stop n h a none = some (null, h)
stop n h a (some (off, _)) = some (take_block h (a + off) n)

stop-shift :
    (n a : ℕ) (h : Heap) (b : Block) (o : Option (ℕ × List Block))
    → stop n h (a + 8 + b.size) o
      ≡ stop n h a (elim o [ none ↦ none | some (off, bs') ↦ some (extent b + off, b ∷ bs') ])
stop-shift n a h b none = refl
stop-shift n a h b (some (off, _)) = ap (λ x. some (take_block h x n)) (omega arith)

pub malloc_loop-stop :
    (k n a : ℕ) (h : Heap) (bs : List Block)
    → 0 < a
    → All IsAligned bs
    → Chain h.mem a bs
    → length bs < k
    → malloc_loop k n h (link a bs) ≡ stop n h a (first_fit n bs)
unfolding malloc_loop first_fit
malloc_loop-stop zero n a h bs pos al c lt = elim lt [ ]
malloc_loop-stop (suc k) n a h [] pos al c lt = refl
malloc_loop-stop (suc k) n a h (b ∷ bs) pos al c lt =
    let size = get_size-tag b al.0 in
    let flag = get_free-tag b al.0 in
    let ih = malloc_loop-stop k n (a + 8 + b.size) h bs (omega arith) al.1 c.2 (omega arith) in
    rw (==_ne a null (omega arith), c.0, c.1, size, flag, ih)
      (elim (Bool-cases (fits n b)) [
        | inl hit ↦ rw hit (ap (λ x. some (take_block h x n)) (omega arith))
        | inr miss ↦ rw miss (stop-shift n a h b (first_fit n bs))
      ])
