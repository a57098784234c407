-- ===== src/Allocator/Chain.antt =====
-- How a list of blocks lies in memory, and when a heap represents one.
use stm32_cli_os.Prelude.{
  ℕ, ◌+◌, ◌*◌, ◌%◌, ◌<◌, ◌≤◌, ◌≡◌, refl, ◌∙◌, inr, Bool, List, [], ◌∷◌, ◌++◌, arith, if◌then◌else◌,
  u32, All, length,
}
use stm32_cli_os.Memory.{
  Mem, load32, store32, store32-ne, load32-store32_self, load32-store32_ne, Agree, load32-Agree,
}
use stm32_cli_os.Allocator.{Heap, null}
use stm32_cli_os.Allocator.Blocks.{Block, span, free_bytes, used_bytes, free_count, used_count}

-- The header word of a block.
abbrev pub tag : Block → ℕ
tag b = if b.is_free then b.size + 1 else b.size

-- The address of a list of blocks that starts at `a`, `NULL` if there is none.
abbrev pub link : ℕ → List Block → ℕ
link a [] = null
link a (b ∷ bs) = a

-- The headers from `a` on describe the blocks `bs`, without gaps.
abbrev pub Chain : Mem → ℕ → List Block → Type 0
Chain m a [] = Unit {0}
Chain m a (b ∷ bs) =
    (load32 m a ≡ tag b)
    × (load32 m (a + 4) ≡ link (a + 8 + b.size) bs)
    × Chain m (a + 8 + b.size) bs

abbrev pub IsAligned : Block → Type 0
IsAligned b = b.size % 4 ≡ 0

-- The heap holds exactly the blocks `bs`, and its counters count them.
pub record Represents (h : Heap) (bs : List Block) : Type 0 where
  pub head_pos : 0 < h.head
  pub head_aligned : h.head % 4 ≡ 0
  pub capacity : span bs ≡ h.mem_capacity
  pub in_memory : h.head + h.mem_capacity < u32
  pub nonempty : 0 < length bs
  pub aligned : All IsAligned bs
  pub chain : Chain h.mem h.head bs
  pub free_mem : h.free_mem ≡ free_bytes bs
  pub allocated_mem : h.allocated_mem ≡ used_bytes bs
  pub free_blocks : h.free_blocks ≡ free_count bs
  pub allocated_blocks : h.allocated_blocks ≡ used_count bs

-- A chain survives any change that spares the bytes that it covers.
pub Chain-frame :
    (m m' : Mem) (a : ℕ) (bs : List Block)
    → Agree m m' a (a + span bs)
    → Chain m a bs
    → Chain m' a bs
Chain-frame m m' a [] same c = tt
Chain-frame m m' a (b ∷ bs) same c = (
  load32-Agree m m' a a (a + span (b ∷ bs)) same (omega arith) (omega arith) ∙ c.0,
  load32-Agree m m' (a + 4) a (a + span (b ∷ bs)) same (omega arith) (omega arith) ∙ c.1,
  Chain-frame m m' (a + 8 + b.size) bs (λ p lo hi. same p (omega arith) (omega arith)) c.2,
)

pub Chain-right :
    (m : Mem) (a : ℕ) (pre post : List Block)
    → Chain m a (pre ++ post)
    → Chain m (a + span pre) post
Chain-right m a [] post c = let e : a ≡ a + 0 = omega arith in rw (← e) c
Chain-right m a (p ∷ pre) post c =
    let e : a + 8 + p.size + span pre ≡ a + span (p ∷ pre) = omega arith in
    rw (← e) (Chain-right m (a + 8 + p.size) pre post c.2)

link-append :
    (a : ℕ) (pre : List Block) (b c : Block) (bs cs : List Block)
    → link a (pre ++ (b ∷ bs)) ≡ link a (pre ++ (c ∷ cs))
link-append a [] b c bs cs = refl
link-append a (p ∷ pre) b c bs cs = refl

-- A change from `x` on that leaves a chain there leaves the whole chain.
pub Chain-replace :
    (m m' : Mem) (a : ℕ) (pre : List Block) (b c : Block) (bs cs : List Block)
    → Agree m m' a (a + span pre)
    → Chain m a (pre ++ (b ∷ bs))
    → Chain m' (a + span pre) (c ∷ cs)
    → Chain m' a (pre ++ (c ∷ cs))
Chain-replace m m' a [] b c bs cs same old new = let e : a + 0 ≡ a = omega arith in rw e at new
Chain-replace m m' a (p ∷ pre) b c bs cs same old new =
    let e : a + span (p ∷ pre) ≡ a + 8 + p.size + span pre = omega arith in
    (
      load32-Agree m m' a a (a + span (p ∷ pre)) same (omega arith) (omega arith) ∙ old.0,
      load32-Agree m m' (a + 4) a (a + span (p ∷ pre)) same (omega arith) (omega arith)
          ∙ (old.1 ∙ link-append (a + 8 + p.size) pre b c bs cs),
      Chain-replace m m' (a + 8 + p.size) pre b c bs cs
          (λ q lo hi. same q (omega arith) (omega arith)) old.2 (rw e at new),
    )

pub length-le-span : (bs : List Block) → length bs ≤ span bs
length-le-span [] = omega arith
length-le-span (b ∷ bs) = omega (arith, length-le-span bs)

-- Data and headers fill the heap: nothing is lost between blocks.
pub span-bytes : (bs : List Block) → span bs ≡ free_bytes bs + used_bytes bs + 8 * length bs
span-bytes [] = refl
span-bytes (b ∷ bs) = ground (arith, span-bytes bs)

pub length-counts : (bs : List Block) → length bs ≡ free_count bs + used_count bs
length-counts [] = refl
length-counts (b ∷ bs) = ground (arith, length-counts bs)

-- A new header word changes the flag of a block and nothing else.
pub Chain-retag :
    (m : Mem) (x s : ℕ) (f g : Bool) (post : List Block)
    → s + 1 < u32
    → Chain m x (record { size = s; is_free = f } ∷ post)
    → Chain (store32 m x (if g then s + 1 else s)) x (record { size = s; is_free = g } ∷ post)
Chain-retag m x s f g post small c =
    let v : ℕ = if g then s + 1 else s in
    (
      load32-store32_self m x v (ground arith),
      load32-store32_ne m x (x + 4) v (inr (omega arith)) ∙ c.1,
      Chain-frame m _ (x + 8 + s) post (λ p lo hi. store32-ne m x v p (inr (omega arith))) c.2,
    )

pub link-lt : (a : ℕ) (bs : List Block) → a < u32 → link a bs < u32
link-lt a [] h = omega arith
link-lt a (b ∷ bs) h = h
