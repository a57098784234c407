-- ===== src/SystemClock/Configured.antt =====
-- What `system_clock_config_hz` of core/system_clock.c leaves in the registers.
use stm32_cli_os.Prelude.{
  ℕ, ◌≤◌, ◌≡◌, ◌⊎◌, refl, sym, subst, ◌∙◌, inl, inr, true, false, ◌==◌, ==_iff, Bool-cases, arith,
}
use stm32_cli_os.Registers.{field, with_field, set_bit}
use stm32_cli_os.Utils.Wait.{WaitResult, wait_ok, wait_timeout}
use stm32_cli_os.SystemClock.Fields.{
  source_hz, flash_hz, is_supported, msi_range, range_kept, source_msi, source_hsi16, source_pll,
  vos_field, configure_pll_hz, flash_hz-set_latency, latency_enough, pll_source, pll_targets,
  vos_bits_small,
}
use stm32_cli_os.SystemClock.{
  ClockResult, clock_ok, clock_err_unsupported, clock_err_timeout, Clock, Hardware, then_ok,
  wait_set, wait_clear, wait_field, vos_set, msi_ready, msi_used, pll_stopped, hsi_stopped,
  hsi_ready, hsi_used, pll_off, pll_ready, pll_used, src_msi, src_hsi16, src_pll, flash_set_latency,
  vos_of, vos_bits, is_pll_hz, power_set_vos, system_clock_set_default, system_clock_set_hsi16,
  config_pll, config_source, system_clock_config_hz,
}

-- What a call with a target says of the clock before and after it.
abbrev pub Configured : Clock → ℕ → ClockResult × Clock → Type 0
Configured c target_hz (clock_ok, d) =
    (source_hz d ≡ target_hz) × (d.system_clock_val_hz ≡ target_hz) × (target_hz ≤ flash_hz d)
Configured c target_hz (clock_err_unsupported, d) =
    (is_supported target_hz ≡ false) × (source_hz d ≡ 4000000) × (d.system_clock_val_hz ≡ 4000000)
Configured c target_hz (clock_err_timeout, d) =
    (d.system_clock_val_hz ≡ c.system_clock_val_hz) ⊎ (d.system_clock_val_hz ≡ 4000000)

WaitResult-cases : (r : WaitResult) → (r ≡ wait_ok) ⊎ (r ≡ wait_timeout)
WaitResult-cases wait_ok = inl refl
WaitResult-cases wait_timeout = inr refl

module _ (hw : Hardware) where
  set_default_holds :
      (P : ClockResult × Clock → Type 0) (c : Clock)
      → ((d : Clock)
          → (d.system_clock_val_hz ≡ c.system_clock_val_hz) ⊎ (d.system_clock_val_hz ≡ 4000000)
          → P (clock_err_timeout, d))
      → ((d : Clock)
          → field d.rcc_cfgr 0 2 ≡ 0
          → field d.rcc_cr 4 4 ≡ 6
          → d.system_clock_val_hz ≡ 4000000
          → P (clock_ok, d))
      → P (system_clock_set_default hw c)
  unfolding system_clock_set_default
  set_default_holds P c late on_time = elim (WaitResult-cases (wait_set hw msi_ready 1)) [
    | inr t1 ↦ rw t1 (late _ (inl refl))
    | inl o1 ↦ elim (WaitResult-cases (wait_field hw msi_used 2 2 src_msi)) [
      | inr t2 ↦ rw (o1, t2) (late _ (inl refl))
      | inl o2 ↦ elim (WaitResult-cases (wait_clear hw pll_stopped 25)) [
        | inr t3 ↦ rw (o1, o2, t3) (late _ (inr refl))
        | inl o3 ↦ elim (WaitResult-cases (wait_clear hw hsi_stopped 10)) [
          | inr t4 ↦ rw (o1, o2, o3, t4) (late _ (inr refl))
          | inl o4 ↦
              rw (o1, o2, o3, o4)
                (on_time _ (source_msi _)
                  (range_kept (with_field (set_bit c.rcc_cr 0) 4 4 6)
                    ∙ msi_range (set_bit c.rcc_cr 0))
                  refl)
        ]
      ]
    ]
  ]

  set_hsi16_holds :
      (P : ClockResult × Clock → Type 0) (c : Clock)
      → ((d : Clock) → d.system_clock_val_hz ≡ c.system_clock_val_hz → P (clock_err_timeout, d))
      → P (
        clock_ok,
        record c { rcc_cr = set_bit c.rcc_cr 8; rcc_cfgr = with_field c.rcc_cfgr 0 2 1 },
      )
      → P (system_clock_set_hsi16 hw c)
  unfolding system_clock_set_hsi16
  set_hsi16_holds P c late on_time = elim (WaitResult-cases (wait_set hw hsi_ready 10)) [
    | inr t1 ↦ rw t1 (late _ refl)
    | inl o1 ↦ elim (WaitResult-cases (wait_field hw hsi_used 2 2 src_hsi16)) [
      | inr t2 ↦ rw (o1, t2) (late _ refl)
      | inl o2 ↦ rw (o1, o2) on_time
    ]
  ]

  -- The choice of the source, on the default clock and with a flash that is fast enough.
  module _ (c d : Clock) (hz : ℕ) (msi : field d.rcc_cfgr 0 2 ≡ 0) (range : field d.rcc_cr 4 4 ≡ 6)
      (val : d.system_clock_val_hz ≡ 4000000) where
    abbrev on_hsi16 : Clock
    on_hsi16 = record d { rcc_cr = set_bit d.rcc_cr 8; rcc_cfgr = with_field d.rcc_cfgr 0 2 1 }

    config_pll-Configured :
        is_pll_hz hz ≡ true → hz ≤ flash_hz d → Configured c hz (config_pll hw hz on_hsi16)
    config_pll-Configured pll fast = elim (WaitResult-cases (wait_clear hw pll_off 25)) [
      | inr t1 ↦ rw t1 (inr val)
      | inl o1 ↦ elim (WaitResult-cases (wait_set hw pll_ready 25)) [
        | inr t2 ↦ rw (o1, t2) (inr val)
        | inl o2 ↦ elim (WaitResult-cases (wait_field hw pll_used 2 2 src_pll)) [
          | inr t3 ↦ rw (o1, o2, t3) (inr val)
          | inl o3 ↦
              rw (o1, o2, o3)
                (
                  rw (source_pll (with_field d.rcc_cfgr 0 2 1), pll_source d.rcc_pllcfgr _ _ _)
                      (configure_pll_hz d hz pll),
                  refl,
                  fast,
                )
        ]
      ]
    ]

    config_source-Configured :
        (hz ≤ 80000000 → (hz ≤ 26000000 → hz ≤ 24000000) → hz ≤ flash_hz d)
        → Configured c hz (config_source hw hz d)
    config_source-Configured fast = elim (Bool-cases (hz == 4000000)) [
      | inl is4 ↦
          let e = (==_iff hz 4000000).0 is4 in
          rw is4
            (rw (msi, range) (sym e), val ∙ sym e, fast (omega (arith, e)) λ le. omega (arith, e))
      | inr not4 ↦ elim (Bool-cases (hz == 16000000)) [
        | inl is16 ↦
            let e = (==_iff hz 16000000).0 is16 in
            rw (not4, is16)
              (set_hsi16_holds
                (λ r.
                  Configured c hz
                    (then_ok r λ x. (clock_ok, record x { system_clock_val_hz = 16000000 })))
                d (λ x same. inr (same ∙ val))
                (
                  rw (source_hsi16 d.rcc_cfgr) (sym e),
                  sym e,
                  fast (omega (arith, e)) λ le. omega (arith, e),
                ))
        | inr not16 ↦ elim (Bool-cases (is_pll_hz hz)) [
          | inl pll ↦
              let small : hz ≤ 80000000 =
                pll_targets (λ t. t ≤ 80000000) hz pll (omega arith) (omega arith) (omega arith)
                  (omega arith) (omega arith) in
              let range2 : hz ≤ 26000000 → hz ≤ 24000000 =
                pll_targets (λ t. t ≤ 26000000 → t ≤ 24000000) hz pll (λ le. omega arith)
                  (λ le. absurd (omega (arith, le))) (λ le. absurd (omega (arith, le)))
                  (λ le. absurd (omega (arith, le))) (λ le. absurd (omega (arith, le))) in
              rw (not4, not16, pll)
                (set_hsi16_holds (λ r. Configured c hz (then_ok r (config_pll hw hz))) d
                  (λ x same. inr (same ∙ val)) (config_pll-Configured pll (fast small range2)))
          | inr other ↦
              rw (not4, not16, other) (rw (not4, not16, other) refl, rw (msi, range) refl, val)
        ]
      ]
    ]

  -- Whatever the hardware answers, `system_clock_config_hz` ends: with success, the frequency that
  -- the registers select is the target, `get_system_clock_hz` gives it, and the voltage range and
  -- wait states allow it; as unsupported, for a target that is none of the seven, on the 4 MHz
  -- clock; or as timed out, with the recorded frequency as before or 4 MHz.
  pub config_hz-Configured : (c : Clock) (hz : ℕ) → Configured c hz (system_clock_config_hz hw c hz)
  unfolding system_clock_config_hz power_set_vos
  config_hz-Configured c hz =
      set_default_holds
        (λ r. Configured c hz (
          then_ok r λ d.
            then_ok (power_set_vos hw d hz)
              λ e. config_source hw hz (flash_set_latency e hz (vos_of hz))))
        c (λ d late. late)
        λ d msi range val.
          elim (WaitResult-cases (wait_field hw vos_set 9 2 (vos_bits (vos_of hz)))) [
            | inr t1 ↦ rw t1 (inr val)
            | inl o1 ↦
                let e = record d {
                  rcc_apb1enr1 = set_bit d.rcc_apb1enr1 28;
                  pwr_cr1 = with_field d.pwr_cr1 9 2 (vos_bits (vos_of hz));
                } in
                rw o1 (
                  config_source-Configured c (flash_set_latency e hz (vos_of hz)) hz msi range val
                    λ small range2.
                      subst (λ x. hz ≤ x)
                        (sym (
                          flash_hz-set_latency e hz (vos_of hz) (
                            vos_field d.pwr_cr1 (vos_bits (vos_of hz))
                              (vos_bits_small (vos_of hz)))))
                        (latency_enough hz small range2))
          ]
