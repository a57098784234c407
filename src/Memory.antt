-- ===== src/Memory.antt =====
-- The byte memory of the target, and the aligned word accesses that the C code makes through
-- pointers to structs. Words are stored low byte first.
use stm32_cli_os.Prelude.{
  ℕ, ◌+◌, ◌*◌, ◌/◌, ◌%◌, ◌<◌, ◌≤◌, ◌≡◌, ◌⊎◌, arith, ◌==◌, if◌then◌else◌, u32,
}

-- The byte at each address.
abbrev pub Mem : Type 0
Mem = ℕ → ℕ

unfoldable pub load32 : Mem → ℕ → ℕ
load32 m a = m a + 256 * m (a + 1) + 65536 * m (a + 2) + 16777216 * m (a + 3)

unfoldable pub store32 : Mem → ℕ → ℕ → Mem
store32 m a v p =
    if p == a
    then v % 256
    else if p == a + 1
    then v / 256 % 256
    else if p == a + 2
    then v / 65536 % 256
    else if p == a + 3
    then v / 16777216 % 256
    else m p

unfoldable pub store8 : Mem → ℕ → ℕ → Mem
store8 m a v p = if p == a then v else m p

-- `m'` holds the same bytes as `m` from `lo` up to `hi`.
abbrev pub Agree : Mem → Mem → ℕ → ℕ → Type 0
Agree m m' lo hi = (p : ℕ) → lo ≤ p → p < hi → m' p ≡ m p

pub load32-Agree :
    (m m' : Mem) (a lo hi : ℕ) → Agree m m' lo hi → lo ≤ a → a + 4 ≤ hi → load32 m' a ≡ load32 m a
unfolding load32
load32-Agree m m' a lo hi same h k = omega (
  arith,
  same a (omega arith) (omega arith),
  same (a + 1) (omega arith) (omega arith),
  same (a + 2) (omega arith) (omega arith),
  same (a + 3) (omega arith) (omega arith),
)

pub store32-ne : (m : Mem) (a v p : ℕ) → (p < a) ⊎ (a + 4 ≤ p) → store32 m a v p ≡ m p
unfolding store32
store32-ne m a v p h = ground arith

pub load32-store32_self : (m : Mem) (a v : ℕ) → v < u32 → load32 (store32 m a v) a ≡ v
unfolding load32 store32
load32-store32_self m a v h = ground arith

pub load32-store32_ne :
    (m : Mem) (a b v : ℕ) → (b + 4 ≤ a) ⊎ (a + 4 ≤ b) → load32 (store32 m a v) b ≡ load32 m b
unfolding load32
load32-store32_ne m a b v h = omega (
  arith,
  store32-ne m a v b (omega arith),
  store32-ne m a v (b + 1) (omega arith),
  store32-ne m a v (b + 2) (omega arith),
  store32-ne m a v (b + 3) (omega arith),
)
