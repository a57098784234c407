-- ===== src/Startup/Loaded.antt =====
-- What the reset handler leaves in memory.
use stm32_cli_os.Prelude.{
  ℕ, zero, suc, ◌+◌, ◌-◌, ◌*◌, ◌<◌, ◌≤◌, ◌≡◌, refl, ap, ◌∙◌, ◌⊎◌, inl, inr, Option, some, arith,
  u32, add32, ltb, ltb→lt, ltb→le, lt→ltb, le→ltb, Bool-cases,
}
use stm32_cli_os.Memory.{Mem, load32, store32, store32-ne}
use stm32_cli_os.Startup.{Sections, copy_data, zero_bss, reset_memory}

abbrev Bytes : Mem → Type 0
Bytes m = (p : ℕ) → m p < 256

store32-Bytes : (m : Mem) (a v : ℕ) → Bytes m → Bytes (store32 m a v)
unfolding store32
store32-Bytes m a v small p = ground (arith, small p)

store32-word :
    (m : Mem) (a b i : ℕ) → Bytes m → i < 4 → store32 m a (load32 m b) (a + i) ≡ m (b + i)
unfolding load32 store32
store32-word m a b zero small lt =
    ground (arith, small b, small (b + 1), small (b + 2), small (b + 3))
store32-word m a b (suc zero) small lt =
    ground (arith, small b, small (b + 1), small (b + 2), small (b + 3))
store32-word m a b (suc (suc zero)) small lt =
    ground (arith, small b, small (b + 1), small (b + 2), small (b + 3))
store32-word m a b (suc (suc (suc zero))) small lt =
    ground (arith, small b, small (b + 1), small (b + 2), small (b + 3))
store32-word m a b (suc (suc (suc (suc i)))) small lt = absurd (omega (arith, lt))

store32-zero : (m : Mem) (a p : ℕ) → a ≤ p → p < a + 4 → store32 m a 0 p ≡ 0
unfolding store32
store32-zero m a p lo hi = ground arith

-- The first `n` bytes at `src` arrive at `dst`, and all else stays.
abbrev pub Copied : Mem → ℕ → ℕ → ℕ → Mem → Type 0
Copied m src dst n m' =
    ((i : ℕ) → i < n → m' (dst + i) ≡ m (src + i))
    × ((p : ℕ) → (p < dst) ⊎ (dst + n ≤ p) → m' p ≡ m p)

abbrev pub Zeroed : Mem → ℕ → ℕ → Mem → Type 0
Zeroed m lo hi m' =
    ((p : ℕ) → lo ≤ p → p < hi → m' p ≡ 0) × ((p : ℕ) → (p < lo) ⊎ (hi ≤ p) → m' p ≡ m p)

-- A word and then the rest.
Copied-suc :
    (m m' : Mem) (src dst k : ℕ)
    → Bytes m
    → src + 4 * suc k ≤ dst
    → Copied (store32 m dst (load32 m src)) (src + 4) (dst + 4) (4 * k) m'
    → Copied m src dst (4 * suc k) m'
Copied-suc m m' src dst k small apart (inside, outside) = (
  λ i lt. elim (Bool-cases (ltb i 4)) [
    | inl early ↦
        outside (dst + i) (inl (omega (arith, ltb→lt i 4 early)))
        ∙ store32-word m dst src i small (ltb→lt i 4 early)
    | inr late ↦
        let four : 4 ≤ i = ltb→le i 4 late in
        let e : dst + i ≡ dst + 4 + (i - 4) = omega (arith, four) in
        let f : src + 4 + (i - 4) ≡ src + i = omega (arith, four) in
        ap m' e
        ∙ (inside (i - 4) (omega (arith, lt, four))
            ∙ (ap (store32 m dst (load32 m src)) f
                ∙ store32-ne m dst (load32 m src) (src + i) (inl (omega (arith, lt, apart)))))
  ],
  λ p away.
      outside p (omega (arith, away)) ∙ store32-ne m dst (load32 m src) p (omega (arith, away)),
)

copy_data-Copied :
    (k fuel : ℕ) (m : Mem) (src dst edata : ℕ)
    → Bytes m
    → edata ≡ dst + 4 * k
    → edata < u32
    → src + 4 * k ≤ dst
    → k < fuel
    → (m' : Mem) × (copy_data fuel m src dst edata ≡ some m')
      × Copied m src dst (4 * k) m'
      × Bytes m'
unfolding copy_data
copy_data-Copied k zero m src dst edata small e top apart enough = absurd (omega (arith, enough))
copy_data-Copied zero (suc fuel) m src dst edata small e top apart enough =
    rw (le→ltb dst edata (omega arith))
      (m, refl, (λ i lt. absurd (omega (arith, lt)), λ p away. refl), small)
copy_data-Copied (suc k) (suc fuel) m src dst edata small e top apart enough =
    let s : add32 src 4 ≡ src + 4 = omega arith in
    let d : add32 dst 4 ≡ dst + 4 = omega arith in
    let (m', ends, copied, small') =
      copy_data-Copied k fuel (store32 m dst (load32 m src)) (src + 4) (dst + 4) edata
        (store32-Bytes m dst (load32 m src) small) (omega arith) top (omega arith) (omega arith) in
    rw (lt→ltb dst edata (omega arith), s, d)
      (m', ends, Copied-suc m m' src dst k small apart copied, small')

zero_bss-Zeroed :
    (k fuel : ℕ) (m : Mem) (b ebss : ℕ)
    → ebss ≡ b + 4 * k
    → ebss < u32
    → k < fuel
    → (m' : Mem) × (zero_bss fuel m b ebss ≡ some m') × Zeroed m b ebss m'
unfolding zero_bss
zero_bss-Zeroed k zero m b ebss e top enough = absurd (omega (arith, enough))
zero_bss-Zeroed zero (suc fuel) m b ebss e top enough =
    rw (le→ltb b ebss (omega arith))
      (m, refl, (λ p lo hi. absurd (omega (arith, lo, hi, e)), λ p away. refl))
zero_bss-Zeroed (suc k) (suc fuel) m b ebss e top enough =
    let d : add32 b 4 ≡ b + 4 = omega arith in
    let (m', ends, (zeros, same)) =
      zero_bss-Zeroed k fuel (store32 m b 0) (b + 4) ebss (omega arith) top (omega arith) in
    rw (lt→ltb b ebss (omega arith), d)
      (
        m',
        ends,
        (
          λ p lo hi. elim (Bool-cases (ltb p (b + 4))) [
            | inl early ↦
                let lt = ltb→lt p (b + 4) early in same p (inl lt) ∙ store32-zero m b p lo lt
            | inr late ↦ zeros p (ltb→le p (b + 4) late) hi
          ],
          λ p away. same p (omega (arith, away, e)) ∙ store32-ne m b 0 p (omega (arith, away, e)),
        ),
      )

-- The sections as the linker script places them: whole words, the initial values below `.data`,
-- and `.bss` behind it.
pub record IsPlaced (at : Sections) : Type 0 where
  pub data_words : ℕ
  pub bss_words : ℕ
  pub data_end : at.edata ≡ at.sdata + 4 * data_words
  pub bss_end : at.ebss ≡ at.sbss + 4 * bss_words
  pub flash : at.sidata + 4 * data_words ≤ at.sdata
  pub behind : at.edata ≤ at.sbss
  pub top : at.ebss < u32

abbrev pub Loaded : Sections → Mem → Option Mem → Type 0
Loaded at m r =
    (m' : Mem) × (r ≡ some m')
    × ((i : ℕ) → at.sdata + i < at.edata → m' (at.sdata + i) ≡ m (at.sidata + i))
    × ((p : ℕ) → at.sbss ≤ p → p < at.ebss → m' p ≡ 0)
    × ((p : ℕ) → ((p < at.sdata) ⊎ (at.edata ≤ p)) → ((p < at.sbss) ⊎ (at.ebss ≤ p)) → m' p ≡ m p)

-- For a memory of bytes and sections of whole words, with the initial values below `.data`, `.bss`
-- behind it and its end below 2 ^ 32, the loops of the reset handler end; every byte of `.data`
-- then has its initial value, every byte of `.bss` is 0, and all other bytes are as before.
pub reset_memory-Loaded :
    (at : Sections) (m : Mem)
    → IsPlaced at
    → ((p : ℕ) → m p < 256)
    → Loaded at m (reset_memory at m)
unfolding reset_memory
reset_memory-Loaded at m placed small =
    let e = placed.data_end in
    let f = placed.bss_end in
    let g = placed.flash in
    let behind = placed.behind in
    let top = placed.top in
    let (m₁, ends, (copied, same), _) =
      copy_data-Copied placed.data_words (suc (at.edata - at.sdata)) m at.sidata at.sdata at.edata
        small e (omega (arith, f, behind, top)) g (omega (arith, e)) in
    let (m₂, ends', (zeros, same')) =
      zero_bss-Zeroed placed.bss_words (suc (at.ebss - at.sbss)) m₁ at.sbss at.ebss f top
        (omega (arith, f)) in
    rw (ends) (
      m₂,
      ends',
      λ i lt.
          same' (at.sdata + i) (inl (omega (arith, lt, behind))) ∙ copied i (omega (arith, lt, e)),
      zeros,
      λ p away away'. same' p away' ∙ same p (omega (arith, away, e)),
    )
