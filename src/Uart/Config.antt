-- ===== src/Uart/Config.antt =====
-- `uart_init` of drivers/uart.c.
use stm32_cli_os.Prelude.{
  ℕ, ◌+◌, ◌*◌, ◌/◌, ◌%◌, Bool, true, false, Option, none, some, ◌==◌, if◌then◌else◌, u32, add32,
  put,
}
use stm32_cli_os.Allocator.{null}
use stm32_cli_os.Registers.{has_bit, set_bit, clear_bit, with_field}
use stm32_cli_os.Board.{Board}
use stm32_cli_os.Uart.{Uart, Usart, uart_register_instance}
use stm32_cli_os.Uart.Poll.{UartStatus, uart_ok, uart_fail}
use stm32_cli_os.Uart.Pins.{uart_enable_clocks_and_pins}

pub data WordLength : Type 0 where
  wordlength_8b wordlength_9b wordlength_7b : WordLength

pub data Parity : Type 0 where
  parity_none parity_even parity_odd : Parity

pub data StopBits : Type 0 where
  stopbits_1 stopbits_2 : StopBits

pub record UartConfig : Type 0 where
  pub baud_rate : ℕ
  pub word_length : WordLength
  pub parity : Parity
  pub stop_bits : StopBits
  pub over_sampling8 : Bool

abbrev pub set_word_length : WordLength → ℕ → ℕ
set_word_length wordlength_9b cr1 = set_bit cr1 12
set_word_length wordlength_7b cr1 = set_bit cr1 28
set_word_length wordlength_8b cr1 = clear_bit (clear_bit cr1 12) 28

abbrev pub set_parity : Parity → ℕ → ℕ
set_parity parity_none cr1 = clear_bit cr1 10
set_parity parity_odd cr1 = set_bit (set_bit cr1 10) 9
set_parity parity_even cr1 = clear_bit (set_bit cr1 10) 9

abbrev pub stop_field : StopBits → ℕ
stop_field stopbits_1 = 0
stop_field stopbits_2 = 2

-- `M0`, `M1`, `PCE`, `PS` and `OVER8` by the configuration.
abbrev pub frame_cr1 : UartConfig → ℕ → ℕ
frame_cr1 config cr1 =
    let cleared = clear_bit (clear_bit (clear_bit (clear_bit (clear_bit cr1 12) 28) 10) 9) 15 in
    let framed = set_parity config.parity (set_word_length config.word_length cleared) in
    if config.over_sampling8 then set_bit framed 15 else clear_bit framed 15

-- `USARTDIV`, in 32 bits, and what goes into `BRR`.
abbrev pub usartdiv : Bool → ℕ → ℕ → ℕ
usartdiv false periph_clock_hz baud = add32 periph_clock_hz (baud / 2) / baud
usartdiv true periph_clock_hz baud = add32 (periph_clock_hz * 2 % u32) (baud / 2) / baud

abbrev pub brr_of : Bool → ℕ → ℕ
brr_of false div = div
brr_of true div = div / 16 % 4096 * 16 + div % 16 / 2

-- The registers up to the baud rate, on the disabled peripheral.
abbrev pub configure : UartConfig → ℕ → Usart → Usart
configure config periph_clock_hz r =
    let cr1 = frame_cr1 config (clear_bit r.cr1 0) in
    let over8 = has_bit cr1 15 in
    record r {
      cr1 = cr1;
      cr2 = with_field r.cr2 12 2 (stop_field config.stop_bits);
      brr = brr_of over8 (usartdiv over8 periph_clock_hz config.baud_rate);
    }

abbrev pub with_usart : Uart → ℕ → Usart → Uart
with_usart u uart r = record u { usart = put u.usart uart r }

-- `TE` and `RE`.
abbrev pub enable_both : Usart → Usart
enable_both r = record r { cr1 = set_bit (set_bit r.cr1 3) 2 }

abbrev pub disable_both : Usart → Usart
disable_both r = record r { cr1 = clear_bit (clear_bit r.cr1 3) 2 }

-- What follows `uart_register_instance`.
abbrev pub init_end : ℕ → Option ℕ × Uart → UartStatus × Uart
init_end uart (none, u) = (uart_fail, with_usart u uart (disable_both (u.usart uart)))
init_end uart (some idx, u) =
    (uart_ok, with_usart u uart (record (u.usart uart) { cr1 = set_bit (u.usart uart).cr1 0 }))

abbrev pub init_with : Board → Uart → ℕ → UartConfig → ℕ → UartStatus × Board × Uart
init_with b u uart config periph_clock_hz =
    let r = enable_both (configure config periph_clock_hz (u.usart uart)) in
    let (status, u') = init_end uart (uart_register_instance (with_usart u uart r) uart) in
    (status, uart_enable_clocks_and_pins b uart, u')

-- The configuration is `none` for `NULL`.
unfoldable pub uart_init : Board → Uart → ℕ → Option UartConfig → ℕ → UartStatus × Board × Uart
uart_init b u uart none periph_clock_hz = (uart_fail, b, u)
uart_init b u uart (some config) periph_clock_hz =
    if uart == null
    then (uart_fail, b, u)
    else if config.baud_rate == 0
    then (uart_fail, b, u)
    else init_with b u uart config periph_clock_hz
