-- ===== src/Utils.antt =====
-- core/utils.c: the freestanding memory and string routines.
pub mod Copy
pub mod Wait
pub mod Strings
mod Tests
use stm32_cli_os.Prelude.{ℕ, zero, suc, ◌+◌, ◌%◌}
use stm32_cli_os.Memory.{Mem, store8}

-- `while (n--) *d++ = *s++`.
unfoldable pub memcpy : Mem → ℕ → ℕ → ℕ → Mem
memcpy m dest src zero = m
memcpy m dest src (suc n) = memcpy (store8 m dest (m src)) (dest + 1) (src + 1) n

-- `while (n--) *p++ = (unsigned char)c`.
unfoldable pub memset : Mem → ℕ → ℕ → ℕ → Mem
memset m s c zero = m
memset m s c (suc n) = memset (store8 m s (c % 256)) (s + 1) c n
