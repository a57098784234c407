-- ===== src/Board.antt =====
-- The GPIO ports and the clock enables of include/device_registers.h, with drivers/led.c and
-- drivers/button.c. `IDR` is what the pins show, an argument of what reads it.
use stm32_cli_os.Prelude.{ℕ, ◌*◌, Bool, not}
use stm32_cli_os.Registers.{has_bit, set_bit, clear_bit, flip_bit, with_field}

pub record Gpio : Type 0 where
  pub moder : ℕ
  pub odr : ℕ
  pub afr_low : ℕ
  pub afr_high : ℕ

-- The enables of `RCC` and the ports A to D.
pub record Board : Type 0 where
  pub ahb2enr : ℕ
  pub apb1enr1 : ℕ
  pub apb1enr2 : ℕ
  pub apb2enr : ℕ
  pub gpioa : Gpio
  pub gpiob : Gpio
  pub gpioc : Gpio
  pub gpiod : Gpio

abbrev pub led_pin_pos : ℕ
led_pin_pos = 5

abbrev pub button_pin_pos : ℕ
button_pin_pos = 13

-- The field of two bits of a pin.
abbrev pub set_mode : Gpio → ℕ → ℕ → Gpio
set_mode g pin mode = record g { moder = with_field g.moder (pin * 2) 2 mode }

unfoldable pub led_init : Board → Board
led_init b = record b { ahb2enr = set_bit b.ahb2enr 0; gpioa = set_mode b.gpioa led_pin_pos 1 }

unfoldable pub led_on : Board → Board
led_on b = record b { gpioa = record (b.gpioa) { odr = set_bit b.gpioa.odr led_pin_pos } }

unfoldable pub led_off : Board → Board
led_off b = record b { gpioa = record (b.gpioa) { odr = clear_bit b.gpioa.odr led_pin_pos } }

unfoldable pub led_toggle : Board → Board
led_toggle b = record b { gpioa = record (b.gpioa) { odr = flip_bit b.gpioa.odr led_pin_pos } }

unfoldable pub button_init : Board → Board
button_init b = record b {
  ahb2enr = set_bit b.ahb2enr 2;
  gpioc = set_mode b.gpioc button_pin_pos 0;
}

-- The button is active low.
unfoldable pub button_read : ℕ → Bool
button_read idr = not (has_bit idr button_pin_pos)
