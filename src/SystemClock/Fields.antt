-- ===== src/SystemClock/Fields.antt =====
-- The registers that core/system_clock.c writes, read back.
use stm32_cli_os.Prelude.{
  ℕ, ◌+◌, ◌*◌, ◌/◌, ◌≤◌, ◌≡◌, ◌⊎◌, refl, sym, subst, inl, inr, Bool, true, false, ◌||◌, ◌==◌,
  if◌then◌else◌, ==_iff, arith,
}
use stm32_cli_os.Registers.{field, with_field, set_bit, clear_bit}
use stm32_cli_os.SystemClock.{
  Clock, SystemVos, vos1, vos2, latency_of, flash_set_latency, vos_of, vos_bits, pll_config,
  configure_pll, is_pll_hz,
}

-- The frequency that the registers select, 0 for a source that the code does not use: the MSI in its
-- range 6 has 4 MHz, HSI16 has 16 MHz, and the PLL multiplies and divides HSI16.
abbrev pub source_hz : Clock → ℕ
source_hz c =
    if field c.rcc_cfgr 0 2 == 0
    then if field c.rcc_cr 4 4 == 6 then 4000000 else 0
    else if field c.rcc_cfgr 0 2 == 1
    then 16000000
    else if field c.rcc_cfgr 0 2 == 3
    then if field c.rcc_pllcfgr 0 2 == 2
      then 16000000
        / (field c.rcc_pllcfgr 4 4 + 1)
        * field c.rcc_pllcfgr 8 7
        / (2 * (field c.rcc_pllcfgr 25 2 + 1))
      else 0
    else 0

-- The fastest clock for a number of wait states of the flash and a voltage range.
abbrev pub flash_hz : Clock → ℕ
flash_hz c = (if field c.pwr_cr1 9 2 == 1 then 16000000 else 6000000) * (field c.flash_acr 0 3 + 1)

abbrev pub is_supported : ℕ → Bool
is_supported hz = (hz == 4000000) || (hz == 16000000) || is_pll_hz hz

pub msi_range : (r : ℕ) → field (with_field r 4 4 6) 4 4 ≡ 6
msi_range r = omega arith

msi_source : (r : ℕ) → field (with_field r 0 2 0) 0 2 ≡ 0
msi_source r = omega arith

pub range_kept : (r : ℕ) → field (clear_bit (clear_bit r 24) 8) 4 4 ≡ field r 4 4
range_kept r = ground arith

pub vos_field : (r v : ℕ) → v ≤ 3 → field (with_field r 9 2 v) 9 2 ≡ v
vos_field r v h = omega (arith, h)

latency_field :
    (r v : ℕ) → v ≤ 7 → field (set_bit (set_bit (set_bit (with_field r 0 3 v) 8) 9) 10) 0 3 ≡ v
latency_field r v h = ground (arith, h)

-- The register of the PLL behind the writes of some values.
abbrev pll_written : ℕ → ℕ → ℕ → ℕ → ℕ
pll_written reg m n r =
    set_bit (with_field (with_field (with_field (with_field reg 0 2 2) 4 4 m) 8 7 n) 25 2 r) 24

pub pll_source : (reg m n r : ℕ) → field (pll_written reg m n r) 0 2 ≡ 2
pll_source reg m n r = ground arith

pll_m : (reg m n r : ℕ) → m ≤ 15 → field (pll_written reg m n r) 4 4 ≡ m
pll_m reg m n r h = ground (arith, h)

pll_n : (reg m n r : ℕ) → n ≤ 127 → field (pll_written reg m n r) 8 7 ≡ n
pll_n reg m n r h = ground (arith, h)

pll_r : (reg m n r : ℕ) → r ≤ 3 → field (pll_written reg m n r) 25 2 ≡ r
pll_r reg m n r h = ground (arith, h)

-- The frequency of the PLL.
abbrev pll_hz : ℕ → ℕ
pll_hz reg = 16000000 / (field reg 4 4 + 1) * field reg 8 7 / (2 * (field reg 25 2 + 1))

pll_written_hz :
    (reg n r : ℕ) → n ≤ 127 → r ≤ 3 → pll_hz (pll_written reg 1 n r) ≡ 8000000 * n / (2 * (r + 1))
pll_written_hz reg n r n_small r_small =
    rw (pll_m reg 1 n r (omega arith), pll_n reg 1 n r n_small, pll_r reg 1 n r r_small) refl

or_cases : (a b : Bool) → (a || b) ≡ true → (a ≡ true) ⊎ (b ≡ true)
or_cases true b h = inl refl
or_cases false b h = inr h

module _ (P : ℕ → Type 0) (hz : ℕ) where
  one_target : (lit : ℕ) → (hz == lit) ≡ true → P lit → P hz
  one_target lit e p = subst P (sym ((==_iff hz lit).0 e)) p

  -- The five targets of the PLL.
  pub pll_targets :
      is_pll_hz hz ≡ true → P 24000000 → P 32000000 → P 48000000 → P 64000000 → P 80000000 → P hz
  pll_targets h p24 p32 p48 p64 p80 = elim (or_cases _ (hz == 80000000) h) [
    | inr e ↦ one_target 80000000 e p80
    | inl h1 ↦ elim (or_cases _ (hz == 64000000) h1) [
      | inr e ↦ one_target 64000000 e p64
      | inl h2 ↦ elim (or_cases _ (hz == 48000000) h2) [
        | inr e ↦ one_target 48000000 e p48
        | inl h3 ↦ elim (or_cases (hz == 24000000) (hz == 32000000) h3) [
          | inl e ↦ one_target 24000000 e p24
          | inr e ↦ one_target 32000000 e p32
        ]
      ]
    ]
  ]

pub configure_pll_hz :
    (c : Clock) (hz : ℕ)
    → is_pll_hz hz ≡ true
    → pll_hz (configure_pll c (pll_config hz)).rcc_pllcfgr ≡ hz
configure_pll_hz c hz h =
    pll_targets (λ t. pll_hz (configure_pll c (pll_config t)).rcc_pllcfgr ≡ t) hz h
      (pll_written_hz c.rcc_pllcfgr 12 1 (omega arith) (omega arith))
      (pll_written_hz c.rcc_pllcfgr 8 0 (omega arith) (omega arith))
      (pll_written_hz c.rcc_pllcfgr 12 0 (omega arith) (omega arith))
      (pll_written_hz c.rcc_pllcfgr 16 0 (omega arith) (omega arith))
      (pll_written_hz c.rcc_pllcfgr 20 0 (omega arith) (omega arith))

-- The flash is fast enough behind `power_set_vos` and `flash_set_latency`.
latency_small : (hz : ℕ) (v : SystemVos) → latency_of hz v ≤ 7
latency_small hz vos1 = ground arith
latency_small hz vos2 = ground arith

pub flash_hz-set_latency :
    (c : Clock) (hz : ℕ) (v : SystemVos)
    → field c.pwr_cr1 9 2 ≡ vos_bits v
    → flash_hz (flash_set_latency c hz v)
      ≡ (if vos_bits v == 1 then 16000000 else 6000000) * (latency_of hz v + 1)
flash_hz-set_latency c hz v e =
    rw (e, latency_field c.flash_acr (latency_of hz v) (latency_small hz v)) refl

-- The wait states are enough for the targets.
pub latency_enough :
    (hz : ℕ)
    → hz ≤ 80000000
    → (hz ≤ 26000000 → hz ≤ 24000000)
    → hz
      ≤ (if vos_bits (vos_of hz) == 1 then 16000000 else 6000000) * (latency_of hz (vos_of hz) + 1)
latency_enough hz h k = ground (arith, h, k)

pub source_msi : (r : ℕ) → field (with_field r 0 2 0) 0 2 ≡ 0
source_msi r = omega arith

pub source_hsi16 : (r : ℕ) → field (with_field r 0 2 1) 0 2 ≡ 1
source_hsi16 r = omega arith

pub source_pll : (r : ℕ) → field (with_field r 0 2 3) 0 2 ≡ 3
source_pll r = omega arith

pub vos_bits_small : (v : SystemVos) → vos_bits v ≤ 3
vos_bits_small vos1 = omega arith
vos_bits_small vos2 = omega arith
