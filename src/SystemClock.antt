-- ===== src/SystemClock.antt =====
-- core/system_clock.c. The registers are the bits that the code writes; what the hardware shows in a
-- register while the code waits for it is an argument, by the wait and the number of the read.
pub mod Fields
pub mod Configured
mod Tests
use stm32_cli_os.Prelude.{ℕ, ◌-◌, Bool, true, false, ◌||◌, leb, ◌==◌, if◌then◌else◌}
use stm32_cli_os.Registers.{has_bit, set_bit, clear_bit, field, with_field}
use stm32_cli_os.Utils.Wait.{WaitResult, wait_ok, wait_timeout, wait_until}

pub data ClockResult : Type 0 where
  clock_ok clock_err_unsupported clock_err_timeout : ClockResult

pub data SystemVos : Type 0 where
  vos1 vos2 : SystemVos

-- `SYSCLK_SRC_MSI`, `SYSCLK_SRC_HSI16` and `SYSCLK_SRC_PLL`.
abbrev pub src_msi : ℕ
src_msi = 0

abbrev pub src_hsi16 : ℕ
src_hsi16 = 1

abbrev pub src_pll : ℕ
src_pll = 3

pub record PllConfig : Type 0 where
  pub pllm : ℕ
  pub plln : ℕ
  pub pllr_bits : ℕ

-- `RCC`, `PWR` and `FLASH`, and `system_clock_val_hz`.
pub record Clock : Type 0 where
  pub rcc_cr : ℕ
  pub rcc_cfgr : ℕ
  pub rcc_pllcfgr : ℕ
  pub rcc_apb1enr1 : ℕ
  pub pwr_cr1 : ℕ
  pub flash_acr : ℕ
  pub system_clock_val_hz : ℕ

-- The waits of the file, in its order.
pub data Wait : Type 0 where
  vos_set msi_ready msi_used pll_stopped hsi_stopped hsi_ready hsi_used : Wait
  pll_off pll_ready pll_used : Wait

abbrev pub Hardware : Type 0
Hardware = Wait → ℕ → ℕ

abbrev pub system_clock_wait_max_iter : ℕ
system_clock_wait_max_iter = 1000000

-- An `if` on a wait that returns `SYSTEM_CLOCK_ERR_TIMEOUT`.
abbrev pub awaited : WaitResult → Clock → (Clock → ClockResult × Clock) → ClockResult × Clock
awaited wait_ok c next = next c
awaited wait_timeout c next = (clock_err_timeout, c)

-- An `if` on a call that returns `SYSTEM_CLOCK_ERR_TIMEOUT`.
abbrev pub then_ok : ClockResult × Clock → (Clock → ClockResult × Clock) → ClockResult × Clock
then_ok (clock_ok, c) next = next c
then_ok (clock_err_unsupported, c) next = (clock_err_timeout, c)
then_ok (clock_err_timeout, c) next = (clock_err_timeout, c)

abbrev pub latency_of : ℕ → SystemVos → ℕ
latency_of sysclk_hz vos1 =
    if leb sysclk_hz 16000000
    then 0
    else if leb sysclk_hz 32000000
    then 1
    else if leb sysclk_hz 48000000
    then 2
    else if leb sysclk_hz 64000000
    then 3
    else 4
latency_of sysclk_hz vos2 =
    if leb sysclk_hz 6000000
    then 0
    else if leb sysclk_hz 12000000
    then 1
    else if leb sysclk_hz 18000000
    then 2
    else 3

abbrev pub flash_set_latency : Clock → ℕ → SystemVos → Clock
flash_set_latency c sysclk_hz power =
    let tmp = with_field c.flash_acr 0 3 (latency_of sysclk_hz power) in
    record c { flash_acr = set_bit (set_bit (set_bit tmp 8) 9) 10 }

abbrev pub vos_of : ℕ → SystemVos
vos_of sysclk_hz = if leb sysclk_hz 26000000 then vos2 else vos1

-- `PWR_CR1_VOS_RANGE1` and `PWR_CR1_VOS_RANGE2`, as values of the field.
abbrev pub vos_bits : SystemVos → ℕ
vos_bits vos1 = 1
vos_bits vos2 = 2

-- A switch of `SYSCLK`: the field `SW`.
abbrev pub select_source : Clock → ℕ → Clock
select_source c source = record c { rcc_cfgr = with_field c.rcc_cfgr 0 2 source }

-- The values for the targets that use the PLL; the code's last `else` is never reached.
abbrev pub pll_config : ℕ → PllConfig
pll_config target_hz =
    if target_hz == 24000000
    then record { pllm = 2; plln = 12; pllr_bits = 1 }
    else if target_hz == 32000000
    then record { pllm = 2; plln = 8; pllr_bits = 0 }
    else if target_hz == 48000000
    then record { pllm = 2; plln = 12; pllr_bits = 0 }
    else if target_hz == 64000000
    then record { pllm = 2; plln = 16; pllr_bits = 0 }
    else record { pllm = 2; plln = 20; pllr_bits = 0 }

abbrev pub configure_pll : Clock → PllConfig → Clock
configure_pll c pll_cfg =
    let source = with_field c.rcc_pllcfgr 0 2 2 in
    let m = with_field source 4 4 (pll_cfg.pllm - 1) in
    let n = with_field m 8 7 pll_cfg.plln in
    let r = with_field n 25 2 pll_cfg.pllr_bits in record c { rcc_pllcfgr = set_bit r 24 }

abbrev pub is_pll_hz : ℕ → Bool
is_pll_hz target_hz =
    (target_hz == 24000000)
    || (target_hz == 32000000)
    || (target_hz == 48000000)
    || (target_hz == 64000000)
    || (target_hz == 80000000)

abbrev pub switch_cr : Clock → ℕ → Bool → Clock
switch_cr c n on = record c { rcc_cr = if on then set_bit c.rcc_cr n else clear_bit c.rcc_cr n }

module _ (hw : Hardware) where
  abbrev pub wait : Wait → (ℕ → Bool) → WaitResult
  wait w done = wait_until done (hw w) system_clock_wait_max_iter 0

  -- `wait_for_flag_set`, `wait_for_flag_clear` and `wait_for_reg_mask_eq` on a field.
  abbrev pub wait_set : Wait → ℕ → WaitResult
  wait_set w n = wait w λ reg. has_bit reg n

  abbrev pub wait_clear : Wait → ℕ → WaitResult
  wait_clear w n = wait w λ reg. if has_bit reg n then false else true

  abbrev pub wait_field : Wait → ℕ → ℕ → ℕ → WaitResult
  wait_field w pos width value = wait w λ reg. field reg pos width == value

  unfoldable pub power_set_vos : Clock → ℕ → ClockResult × Clock
  power_set_vos c sysclk_hz =
      let c' = record c {
        rcc_apb1enr1 = set_bit c.rcc_apb1enr1 28;
        pwr_cr1 = with_field c.pwr_cr1 9 2 (vos_bits (vos_of sysclk_hz));
      } in
      awaited (wait_field vos_set 9 2 (vos_bits (vos_of sysclk_hz))) c' λ d. (clock_ok, d)

  -- The range 6 of the MSI is 4 MHz.
  unfoldable pub system_clock_set_default : Clock → ClockResult × Clock
  system_clock_set_default c = awaited (wait_set msi_ready 1) (switch_cr c 0 true) λ d.
      awaited (wait_field msi_used 2 2 src_msi)
        (select_source (record d { rcc_cr = with_field d.rcc_cr 4 4 6 }) src_msi)
        λ e.
          awaited (wait_clear pll_stopped 25)
            (switch_cr (record e { system_clock_val_hz = 4000000 }) 24 false)
            λ f. awaited (wait_clear hsi_stopped 10) (switch_cr f 8 false) λ g. (clock_ok, g)

  unfoldable pub system_clock_set_hsi16 : Clock → ClockResult × Clock
  system_clock_set_hsi16 c = awaited (wait_set hsi_ready 10) (switch_cr c 8 true) λ d.
      awaited (wait_field hsi_used 2 2 src_hsi16) (select_source d src_hsi16) λ e. (clock_ok, e)

  -- The part of `system_clock_config_hz` for the PLL.
  abbrev pub config_pll : ℕ → Clock → ClockResult × Clock
  config_pll target_hz c = awaited (wait_clear pll_off 25) (switch_cr c 24 false) λ d.
      awaited (wait_set pll_ready 25) (switch_cr (configure_pll d (pll_config target_hz)) 24 true)
        λ e.
          awaited (wait_field pll_used 2 2 src_pll) (select_source e src_pll)
            λ f. (clock_ok, record f { system_clock_val_hz = target_hz })

  -- The choice by the target.
  abbrev pub config_source : ℕ → Clock → ClockResult × Clock
  config_source target_hz c =
      if target_hz == 4000000
      then (clock_ok, c)
      else if target_hz == 16000000
      then (then_ok (system_clock_set_hsi16 c)
          λ d. (clock_ok, record d { system_clock_val_hz = 16000000 }))
      else if is_pll_hz target_hz
      then then_ok (system_clock_set_hsi16 c) (config_pll target_hz)
      else (clock_err_unsupported, c)

  unfoldable pub system_clock_config_hz : Clock → ℕ → ClockResult × Clock
  system_clock_config_hz c target_hz = then_ok (system_clock_set_default c) λ d.
      then_ok (power_set_vos d target_hz)
        λ e. config_source target_hz (flash_set_latency e target_hz (vos_of target_hz))

abbrev pub get_system_clock_hz : Clock → ℕ
get_system_clock_hz c = c.system_clock_val_hz
