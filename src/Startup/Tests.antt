-- ===== src/Startup/Tests.antt =====
-- The reset handler on a small image.
use stm32_cli_os.Prelude.{refl, arith, ◌+◌, ◌%◌}
use stm32_cli_os.Memory.{Mem}
use stm32_cli_os.Startup.{Sections, reset_memory}
use stm32_cli_os.Startup.Loaded.{Loaded, reset_memory-Loaded}

abbrev sections : Sections
sections = record {
  sidata = 134225920;
  sdata = 536870912;
  edata = 536870920;
  sbss = 536870920;
  ebss = 536870928;
}

abbrev flash : Mem
flash p = (p + 3) % 256

reset_memory-Loaded_example : Loaded sections flash (reset_memory sections flash)
reset_memory-Loaded_example =
    reset_memory-Loaded sections flash
      (record {
        data_words = 2;
        bss_words = 2;
        data_end = refl;
        bss_end = refl;
        flash = omega arith;
        behind = omega arith;
        top = omega arith;
      })
      (λ p. omega arith)
