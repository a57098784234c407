-- ===== src/Startup.antt =====
-- startup/stm32l476_startup.c: the two loops of the reset handler that prepare the memory for
-- `main`, and the vector table. The loops take fuel; `none` is the end of it.
pub mod Vectors
pub mod Loaded
mod Tests
use stm32_cli_os.Prelude.{ℕ, zero, suc, ◌-◌, Option, none, some, ◌>>=◌, ltb, if◌then◌else◌, add32}
use stm32_cli_os.Memory.{Mem, load32, store32}

-- The addresses that the linker script gives the sections.
pub record Sections : Type 0 where
  pub sidata : ℕ
  pub sdata : ℕ
  pub edata : ℕ
  pub sbss : ℕ
  pub ebss : ℕ

-- `while (dst < &_edata) *dst++ = *src++`.
unfoldable pub copy_data : ℕ → Mem → ℕ → ℕ → ℕ → Option Mem
copy_data zero m src dst edata = none
copy_data (suc k) m src dst edata =
    let rest = copy_data k (store32 m dst (load32 m src)) (add32 src 4) (add32 dst 4) edata in
    if ltb dst edata then rest else some m

-- `for (b = &_sbss; b < &_ebss; ++b) *b = 0`.
unfoldable pub zero_bss : ℕ → Mem → ℕ → ℕ → Option Mem
zero_bss zero m b ebss = none
zero_bss (suc k) m b ebss =
    let rest = zero_bss k (store32 m b 0) (add32 b 4) ebss in if ltb b ebss then rest else some m

-- The reset handler up to the call of `main`.
unfoldable pub reset_memory : Sections → Mem → Option Mem
reset_memory at m = copy_data (suc (at.edata - at.sdata)) m at.sidata at.sdata at.edata >>= λ m'.
    zero_bss (suc (at.ebss - at.sbss)) m' at.sbss at.ebss
