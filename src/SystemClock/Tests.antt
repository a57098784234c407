-- ===== src/SystemClock/Tests.antt =====
-- The clock of `main`, 80 MHz, on hardware that answers.
use stm32_cli_os.SystemClock.{
  Clock, Hardware, vos_set, msi_ready, msi_used, pll_stopped, hsi_stopped, hsi_ready, hsi_used,
  pll_off, pll_ready, pll_used, system_clock_config_hz,
}
use stm32_cli_os.SystemClock.Configured.{Configured, config_hz-Configured}

abbrev at_reset : Clock
at_reset = record {
  rcc_cr = 99;
  rcc_cfgr = 0;
  rcc_pllcfgr = 4096;
  rcc_apb1enr1 = 0;
  pwr_cr1 = 512;
  flash_acr = 1536;
  system_clock_val_hz = 4000000;
}

-- Every flag is as awaited.
abbrev responsive : Hardware
responsive vos_set n = 512
responsive msi_ready n = 2
responsive msi_used n = 0
responsive pll_stopped n = 0
responsive hsi_stopped n = 0
responsive hsi_ready n = 1024
responsive hsi_used n = 4
responsive pll_off n = 0
responsive pll_ready n = 33554432
responsive pll_used n = 12

config_hz-Configured_example :
    Configured at_reset 80000000 (system_clock_config_hz responsive at_reset 80000000)
config_hz-Configured_example = config_hz-Configured responsive at_reset 80000000
