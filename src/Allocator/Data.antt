-- ===== src/Allocator/Data.antt =====
-- The data bytes of the used blocks: what no operation on other blocks may touch.
use stm32_cli_os.Prelude.{ℕ, ◌+◌, ◌<◌, ◌≤◌, ◌≡◌, ◌⊎◌, inl, inr, false, List, [], ◌∷◌, ◌++◌, arith}
use stm32_cli_os.Allocator.{Heap}
use stm32_cli_os.Allocator.Blocks.{Block, span}

-- The byte at `p` is data of a used block in the list that starts at `a`.
abbrev pub InData : ℕ → ℕ → List Block → Type 0
InData p a [] = ⊥
InData p a (b ∷ bs) =
    ((b.is_free ≡ false) × (a + 8 ≤ p) × (p < a + 8 + b.size)) ⊎ InData p (a + 8 + b.size) bs

-- `h'` holds the same data as `h` in the used blocks `bs`.
abbrev pub KeepsData : Heap → Heap → List Block → Type 0
KeepsData h h' bs = (p : ℕ) → InData p h.head bs → h'.mem p ≡ h.mem p

InData-from : (p a : ℕ) (bs : List Block) → InData p a bs → a + 8 ≤ p
InData-from p a [] d = absurd d
InData-from p a (b ∷ bs) (inl d) = d.1
InData-from p a (b ∷ bs) (inr d) = omega (arith, InData-from p (a + 8 + b.size) bs d)

-- A header is not data.
pub InData-header :
    (p a : ℕ) (pre : List Block) (b : Block) (post : List Block)
    → InData p a (pre ++ (b ∷ post))
    → (p < a + span pre) ⊎ (a + span pre + 8 ≤ p)
InData-header p a [] b post d = inr (omega (arith, InData-from p a (b ∷ post) d))
InData-header p a (c ∷ pre) b post (inl d) = omega (arith, d.2)
InData-header p a (c ∷ pre) b post (inr d) =
    omega (arith, InData-header p (a + 8 + c.size) pre b post d)

-- Data in front of the block at `span pre`, or in it, or behind.
pub InData-replace :
    (p a : ℕ) (pre bs cs : List Block)
    → ((x : ℕ) → x ≡ a + span pre → InData p x bs → InData p x cs)
    → InData p a (pre ++ bs)
    → InData p a (pre ++ cs)
InData-replace p a [] bs cs f d = f a (omega arith) d
InData-replace p a (c ∷ pre) bs cs f (inl d) = inl d
InData-replace p a (c ∷ pre) bs cs f (inr d) =
    inr (InData-replace p (a + 8 + c.size) pre bs cs (λ x e. f x (omega arith)) d)
