-- ===== src/Registers.antt =====
-- Bits and fields of the peripheral registers, as the drivers of core/ and drivers/ change them.
use stm32_cli_os.Prelude.{ℕ, ◌+◌, ◌-◌, ◌*◌, ◌/◌, ◌%◌, ◌^◌, Bool, ◌==◌, if◌then◌else◌}

-- `reg & (1 << n)`, `reg |= 1 << n` and `reg &= ~(1 << n)`.
abbrev pub has_bit : ℕ → ℕ → Bool
has_bit reg n = reg / 2 ^ n % 2 == 1

abbrev pub set_bit : ℕ → ℕ → ℕ
set_bit reg n = if has_bit reg n then reg else reg + 2 ^ n

abbrev pub clear_bit : ℕ → ℕ → ℕ
clear_bit reg n = if has_bit reg n then reg - 2 ^ n else reg

-- `reg ^= 1 << n`.
abbrev pub flip_bit : ℕ → ℕ → ℕ
flip_bit reg n = if has_bit reg n then reg - 2 ^ n else reg + 2 ^ n

-- The field of `width` bits from `pos` on, and `reg &= ~mask; reg |= (value << pos) & mask`.
abbrev pub field : ℕ → ℕ → ℕ → ℕ
field reg pos width = reg / 2 ^ pos % 2 ^ width

abbrev pub with_field : ℕ → ℕ → ℕ → ℕ → ℕ
with_field reg pos width value = reg - field reg pos width * 2 ^ pos + value % 2 ^ width * 2 ^ pos
