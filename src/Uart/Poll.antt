-- ===== src/Uart/Poll.antt =====
-- The polling functions and `uart_flush` of drivers/uart.c. What the hardware shows is an argument.
use stm32_cli_os.Prelude.{
  ℕ, zero, suc, ◌+◌, ◌-◌, ◌%◌, Bool, ◌||◌, Option, none, some, List, [], ◌∷◌, ltb, ◌==◌,
  if◌then◌else◌, put,
}
use stm32_cli_os.Memory.{Mem, store8}
use stm32_cli_os.Allocator.{null}
use stm32_cli_os.Utils.Wait.{WaitResult, wait_ok, wait_timeout, wait_until}
use stm32_cli_os.Uart.{Uart, has_bit, uart_get_index, uart_tx_pending}

pub data UartStatus : Type 0 where
  uart_ok uart_fail uart_err_timeout uart_err_overrun uart_err_framing uart_err_noise : UartStatus

abbrev pub uart_max_iterations : ℕ
uart_max_iterations = 10000

-- The wait for a bit of `ISR`, by what its reads give.
abbrev pub wait_isr : (ℕ → ℕ) → ℕ → WaitResult
wait_isr isr n = wait_until (λ reg. has_bit reg n) isr uart_max_iterations 0

-- A byte in `TDR`, or the end of the wait for `TXE`.
abbrev pub send_after : WaitResult → Uart → ℕ → ℕ → UartStatus × Uart
send_after wait_ok u uart c =
    (uart_ok, record u { usart = put u.usart uart (record (u.usart uart) { tdr = c % 256 }) })
send_after wait_timeout u uart c = (uart_err_timeout, u)

unfoldable pub uart_send_char : (ℕ → ℕ) → Uart → ℕ → ℕ → UartStatus × Uart
uart_send_char isr u uart c =
    if uart == null then (uart_fail, u) else send_after (wait_isr isr 7) u uart c

-- The loop of `uart_send_string`: `isr i` has the reads for character `i`.
abbrev pub go_on : UartStatus × Uart → (Uart → UartStatus × Uart) → UartStatus × Uart
go_on (uart_ok, u) next = next u
go_on (status, u) next = (status, u)

unfoldable pub send_loop : List ℕ → (ℕ → ℕ → ℕ) → Uart → ℕ → ℕ → UartStatus × Uart
send_loop [] isr u uart i = (uart_ok, u)
send_loop (c ∷ str) isr u uart i =
    go_on (uart_send_char (isr i) u uart c) λ u'. send_loop str isr u' uart (i + 1)

-- The string is `none` for `NULL`.
unfoldable pub uart_send_string : (ℕ → ℕ → ℕ) → Uart → ℕ → Option (List ℕ) → UartStatus × Uart
uart_send_string isr u uart none = (uart_fail, u)
uart_send_string isr u uart (some str) =
    if uart == null then (uart_fail, u) else send_loop str isr u uart 0

-- What the hardware shows to one call of `uart_receive_char`: the reads of `ISR` while it waits, the
-- read behind the wait, and `RDR`.
pub record Arrival : Type 0 where
  pub isr_reads : ℕ → ℕ
  pub isr_flags : ℕ
  pub rdr : ℕ

-- `PE`, `FE`, `NE` and `ORE` are the low four bits.
abbrev pub flag_status : ℕ → UartStatus
flag_status isr_flags =
    if has_bit isr_flags 3
    then uart_err_overrun
    else if has_bit isr_flags 1
    then uart_err_framing
    else if has_bit isr_flags 2
    then uart_err_noise
    else uart_ok

abbrev pub clear_errors : Uart → ℕ → ℕ → Uart
clear_errors u uart isr_flags =
    if isr_flags % 16 == 0
    then u
    else record u { usart = put u.usart uart (record (u.usart uart) { icr = 15 }) }

-- The character is `none` where `*result` is not written.
abbrev pub receive_after : WaitResult → Arrival → Uart → ℕ → UartStatus × Option ℕ × Uart
receive_after wait_timeout a u uart = (uart_err_timeout, none, u)
receive_after wait_ok a u uart =
    (flag_status a.isr_flags, some (a.rdr % 256), clear_errors u uart a.isr_flags)

-- With `result` not `NULL`.
unfoldable pub uart_receive_char : Arrival → Uart → ℕ → UartStatus × Option ℕ × Uart
uart_receive_char a u uart =
    if uart == null then (uart_fail, none, u) else receive_after (wait_isr a.isr_reads 5) a u uart

abbrev pub is_line_end : ℕ → Bool
is_line_end c = (c == b'\n') || (c == b'\r')

-- A round of the loop of `uart_receive_string` on what `uart_receive_char` returns.
abbrev pub receive_step :
    UartStatus × Option ℕ × Uart
    → Mem
    → ℕ
    → (ℕ → Uart → UartStatus × Mem × Uart)
    → UartStatus × Mem × Uart
receive_step (uart_ok, some c, u) m at next =
    if is_line_end c then (uart_ok, store8 m at 0, u) else next c u
receive_step (status, c, u) m at next = (status, store8 m at 0, u)

-- The loop with `max_length - 1 - i` rounds left.
unfoldable pub receive_loop : ℕ → (ℕ → Arrival) → Uart → ℕ → Mem → ℕ → ℕ → UartStatus × Mem × Uart
receive_loop zero arrivals u uart m buffer i = (uart_ok, store8 m (buffer + i) 0, u)
receive_loop (suc k) arrivals u uart m buffer i =
    receive_step (uart_receive_char (arrivals i) u uart) m (buffer + i)
      λ c u'. receive_loop k arrivals u' uart (store8 m (buffer + i) c) buffer (i + 1)

unfoldable pub uart_receive_string :
    (ℕ → Arrival) → Uart → ℕ → Mem → ℕ → ℕ → UartStatus × Mem × Uart
uart_receive_string arrivals u uart m buffer max_length =
    if (uart == null) || (buffer == null) || (max_length == 0)
    then (uart_fail, m, u)
    else receive_loop (max_length - 1) arrivals u uart m buffer 0

-- The loop of `uart_flush` that yields until nothing is pending: `others` is what runs in a yield.
-- `none` where `fuel` yields were not enough.
unfoldable pub drain : ℕ → (Uart → Uart) → Uart → ℕ → Option Uart
drain zero others u uart = if ltb 0 (uart_tx_pending u uart) then none else some u
drain (suc k) others u uart =
    let rest = drain k others (others u) uart in
    if ltb 0 (uart_tx_pending u uart) then rest else some u

abbrev pub flush_after : WaitResult → Uart → ℕ → UartStatus × Uart
flush_after wait_ok u uart =
    (uart_ok, record u { usart = put u.usart uart (record (u.usart uart) { icr = 64 }) })
flush_after wait_timeout u uart = (uart_err_timeout, u)

abbrev pub flush_at : Option ℕ → ℕ → (Uart → Uart) → (ℕ → ℕ) → Uart → ℕ → Option (UartStatus × Uart)
flush_at none fuel others isr u uart = some (uart_fail, u)
flush_at (some idx) fuel others isr u uart = elim (drain fuel others u uart) [
  | none ↦ none
  | some u' ↦ some (flush_after (wait_isr isr 6) u' uart)
]

unfoldable pub uart_flush : ℕ → (Uart → Uart) → (ℕ → ℕ) → Uart → ℕ → Option (UartStatus × Uart)
uart_flush fuel others isr u uart = flush_at (uart_get_index u uart) fuel others isr u uart
