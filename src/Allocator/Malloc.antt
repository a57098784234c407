-- ===== src/Allocator/Malloc.antt =====
-- `allocator_malloc` against the list of blocks: it is first-fit with splitting.
use stm32_cli_os.Prelude.{
  ℕ, ◌+◌, ◌%◌, ◌<◌, ◌≤◌, ◌≡◌, refl, ap, subst, ◌∙◌, inl, inr, true, false, ◌||◌, Option, none, some,
  List, [], ◌∷◌, ◌++◌, arith, ltb, ◌==◌, Bool-cases, Option-cases, if◌then◌else◌, All, length,
}
use stm32_cli_os.Allocator.{Heap, null, align, fuel, take_block, allocator_malloc}
use stm32_cli_os.Allocator.Blocks.{Block, free_block, span, carve, fits, first_fit}
use stm32_cli_os.Allocator.Chain.{link, Represents, length-le-span}
use stm32_cli_os.Allocator.Find.{Found, first_fit-Found, stop, malloc_loop-stop}
use stm32_cli_os.Allocator.Replace.{SameOutside, At-block}
use stm32_cli_os.Allocator.Take.{take_block-Represents}

-- What a request finds in the blocks of a heap.
abbrev pub request : Heap → List Block → ℕ → Option (ℕ × List Block)
request h bs size = if size == 0 || ltb h.mem_capacity size then none else first_fit (align size) bs

pub link-head : (a : ℕ) (bs : List Block) → 0 < length bs → link a bs ≡ a
link-head a [] pos = elim pos [ ]
link-head a (b ∷ bs) pos = refl

-- A returned block, in terms of the list before and after the call.
pub record Allocated (h : Heap) (bs : List Block) (n p : ℕ) (h' : Heap) (off : ℕ) (bs' : List Block)
    : Type 0 where
  pub pre : List Block
  pub post : List Block
  pub size : ℕ
  pub before : bs ≡ pre ++ (free_block size ∷ post)
  pub result : bs' ≡ pre ++ (carve n size ++ post)
  pub offset : off ≡ span pre
  pub enough : n ≤ size
  pub first : All (λ b. fits n b ≡ false) pre
  pub address : p ≡ h.head + off + 8
  pub word : p % 4 ≡ 0
  pub inside : p + size ≤ h.head + h.mem_capacity
  pub after : Represents h' bs'
  pub same_head : h'.head ≡ h.head
  pub same_capacity : h'.mem_capacity ≡ h.mem_capacity
  pub same : SameOutside h h' (h.head + off) size

take_block_bounds :
    (h : Heap) (x n : ℕ)
    → let h' = (take_block h x n).1 in (h'.head ≡ h.head) × (h'.mem_capacity ≡ h.mem_capacity)
unfolding take_block
take_block_bounds h x n = ground arith

fits-true : (n : ℕ) (b : Block) → fits n b ≡ true → (b ≡ free_block b.size) × (n ≤ b.size)
fits-true n b e = ground arith

take-Allocated :
    (h : Heap) {bs bs' : List Block} {n off : ℕ}
    → Represents h bs
    → n % 4 ≡ 0
    → Found n bs off bs'
    → let (p, h') = take_block h (h.head + off) n in Allocated h bs n p h' off bs'
take-Allocated h {bs} {bs'} {n} {off} r hn f =
    let (free, enough) = fits-true n block fit in
    let before : bs ≡ pre ++ (free_block block.size ∷ post) =
      split ∙ ap (λ b. pre ++ (b ∷ post)) free in
    let r' : Represents h (pre ++ (free_block block.size ∷ post)) = subst (Represents h) before r in
    let a = At-block h pre (free_block block.size) post r' in
    let (address, after, same) = take_block-Represents h n block.size pre post hn enough r' in
    rw offset (record {
      pre = pre;
      post = post;
      size = block.size;
      before = before;
      result = result;
      offset = refl;
      enough = enough;
      first = first;
      address = address;
      word = omega (arith, address, a.address_aligned);
      inside = omega (arith, address, a.top);
      after = rw result after;
      same_head = (take_block_bounds h (h.head + span pre) n).0;
      same_capacity = (take_block_bounds h (h.head + span pre) n).1;
      same = same;
    })
  where
    open f use {pre, block, post, split, offset, result, fit, first}

align-aligned : (size : ℕ) → align size % 4 ≡ 0
align-aligned size = omega arith

request-Found :
    (h : Heap) (bs : List Block) (size : ℕ) {off : ℕ} {bs' : List Block}
    → request h bs size ≡ some (off, bs')
    → Found (align size) bs off bs'
request-Found h bs size e = elim (Bool-cases (size == 0 || ltb h.mem_capacity size)) [
  | inl bad ↦ absurd (cc (rw bad at e))
  | inr good ↦ first_fit-Found (align size) bs (rw good at e)
]

module _ {h : Heap} {bs : List Block} (r : Represents h bs) where
  malloc-stop :
      (size : ℕ) → allocator_malloc h size ≡ stop (align size) h h.head (request h bs size)
  unfolding allocator_malloc
  malloc-stop size = elim (Bool-cases (size == 0 || ltb h.mem_capacity size)) [
    | inl bad ↦ rw bad
    | inr good ↦
        let loop =
          malloc_loop-stop (fuel h) (align size) h.head h bs r.head_pos r.aligned r.chain
            (omega (arith, length-le-span bs, r.capacity)) in
        rw (good, ← loop, link-head h.head bs r.nonempty)
  ]

  -- What a call does for the outcome of the search.
  abbrev pub Outcome : ℕ → Option (ℕ × List Block) → Type 0
  Outcome size none = allocator_malloc h size ≡ some (null, h)
  Outcome size (some (off, bs')) =
      (p : ℕ) × (h' : Heap) × (allocator_malloc h size ≡ some (p, h'))
      × Allocated h bs (align size) p h' off bs'

  -- In a heap that represents a list of blocks, `allocator_malloc` ends and does what the search
  -- says: where the size is 0, above the capacity, or no free block holds the rounded size, it
  -- returns `NULL` and changes nothing; otherwise it takes the first block that fits, returns the
  -- word-aligned address of its data, inside the pool, and leaves a heap that represents the list
  -- with that block carved, with no byte outside the block changed.
  pub malloc_refines : (size : ℕ) → Outcome size (request h bs size)
  malloc_refines size = elim (Option-cases (request h bs size)) [
    | inl nothing ↦ rw nothing (malloc-stop size ∙ ap (stop (align size) h h.head) nothing)
    | inr ((off, bs'), found) ↦ rw found (
      (take_block h (h.head + off) (align size)).0,
      (take_block h (h.head + off) (align size)).1,
      malloc-stop size ∙ ap (stop (align size) h h.head) found,
      take-Allocated h r (align-aligned size) (request-Found h bs size found),
    )
  ]
