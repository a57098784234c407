-- ===== src/Main.antt =====
-- app/main.c: the functions that the CLI gets and puts with, and rounds of its two tasks. The
-- sequence of `main` is in Main/Boot.
pub mod Boot
pub mod Booted
pub mod AllStarted
mod Tests
use stm32_cli_os.Prelude.{
  ℕ, zero, suc, ◌+◌, Bool, true, false, ltb, ◌==◌, if◌then◌else◌, [], none, some,
}
use stm32_cli_os.Memory.{Mem}
use stm32_cli_os.Allocator.{null}
use stm32_cli_os.Utils.Strings.{codes}
use stm32_cli_os.Cli.{CliContext}
use stm32_cli_os.Cli.Printf.{cli_printf}
use stm32_cli_os.Board.{Board, led_toggle, button_read}
use stm32_cli_os.Scheduler.{System}
use stm32_cli_os.Scheduler.Control.{task_sleep_ticks}
use stm32_cli_os.Uart.{Uart, uart_available, uart_read_buffer, uart_write_buffer}
use stm32_cli_os.Uart.Pins.{usart2}

-- The number of bytes read, the memory and the driver.
unfoldable pub uart2_getc : Uart → Mem → ℕ → ℕ × Mem × Uart
uart2_getc u m out_ch =
    let read = uart_read_buffer u usart2 m out_ch 1 in
    if ltb 0 (uart_available u usart2) then read else (0, m, u)

-- `strlen`: the rounds of the loop are bounded by the first argument.
unfoldable pub string_length : ℕ → Mem → ℕ → ℕ → ℕ
string_length zero m s len = len
string_length (suc k) m s len =
    let rest = string_length k m s (len + 1) in if m (s + len) == 0 then len else rest

unfoldable pub uart2_puts : ℕ → Uart → Mem → ℕ → ℕ × Uart
uart2_puts bound u m s =
    let sent = uart_write_buffer u usart2 m s (string_length bound m s 0) in
    if s == null then (0, u) else sent

-- What a round of the loop of `task_button_logger` does with the state of the button: the context
-- and `prev_btn`.
unfoldable pub button_round : CliContext → Bool → Bool → CliContext × Bool
button_round ctx true false = ((cli_printf ctx (codes "Button pressed\r\n") []).1, true)
button_round ctx false true = ((cli_printf ctx (codes "Button released\r\n") []).1, false)
button_round ctx btn prev_btn = (ctx, btn)

-- The system after a sleep, whose result the tasks ignore.
abbrev pub slept : System → ℕ → System
slept s ticks = elim (task_sleep_ticks s ticks) [ none ↦ s | some s' ↦ s' ]

-- A round of the loop of `task_blink`.
unfoldable pub blink_round : Board → System → Board × System
blink_round b s = (led_toggle b, slept s 500)

-- A round of the loop of `task_button_logger`, on what `GPIOC` shows, with the sleep.
unfoldable pub logger_round : ℕ → CliContext → Bool → System → (CliContext × Bool) × System
logger_round idr ctx prev_btn s = (button_round ctx (button_read idr) prev_btn, slept s 20)
