-- ===== src/Uart/Irq.antt =====
-- The interrupt handler of drivers/uart.c.
use stm32_cli_os.Prelude.{
  ℕ, ◌+◌, ◌*◌, ◌%◌, false, Option, none, some, [], ◌∷◌, ◌++◌, ◌==◌, if◌then◌else◌, add32, put,
}
use stm32_cli_os.Allocator.{null}
use stm32_cli_os.Uart.{
  Uart, rx_buffer_size, tx_buffer_size, has_bit, txeie, switch_cr1, uart_get_index,
}

-- `PE`, `FE`, `NE` and `ORE` are the low four bits of `ISR`, and of `ICR`.
unfoldable pub irq_errors : Uart → ℕ → ℕ → ℕ → Uart
irq_errors u uart idx isr = if isr % 16 == 0 then u else record u {
  rx_errors = put u.rx_errors idx (add32 (u.rx_errors idx) 1);
  usart = put u.usart uart (record (u.usart uart) { icr = 15 });
}

-- Byte `b` goes into the ring, or is counted as lost.
unfoldable pub rx_push : Uart → ℕ → ℕ → Uart
rx_push u idx b =
    let head = u.rx_head idx in
    let next = (head + 1) % rx_buffer_size in
    if next == u.rx_tail idx
    then record u { rx_overflow = put u.rx_overflow idx (add32 (u.rx_overflow idx) 1) }
    else record u { rx_buf = put u.rx_buf (256 * idx + head) b; rx_head = put u.rx_head idx next }

abbrev pub rx_notify : Uart → ℕ → ℕ → Uart
rx_notify u idx b =
    if u.rx_callback idx == null
    then u
    else record u { called = u.called ++ ((u.rx_callback idx, b) ∷ []) }

unfoldable pub irq_receive : Uart → ℕ → ℕ → ℕ → Uart
irq_receive u idx isr rdr =
    let b = rdr % 256 in if has_bit isr 5 then rx_notify (rx_push u idx b) idx b else u

unfoldable pub irq_transmit : Uart → ℕ → ℕ → ℕ → Uart
irq_transmit u uart idx isr =
    let head = u.tx_head idx in
    let tail = u.tx_tail idx in
    if has_bit isr 7
    then (if head == tail then switch_cr1 u uart txeie false else record u {
      usart = put u.usart uart (record (u.usart uart) { tdr = u.tx_buf (256 * idx + tail) });
      tx_tail = put u.tx_tail idx ((tail + 1) % tx_buffer_size);
    })
    else u

-- What follows `uart_get_index`; `ISR` is read three times.
abbrev pub irq_at : Uart → ℕ → ℕ → ℕ → ℕ → ℕ → Option ℕ → Uart
irq_at u uart isr₁ isr₂ rdr isr₃ none = u
irq_at u uart isr₁ isr₂ rdr isr₃ (some idx) =
    irq_transmit (irq_receive (irq_errors u uart idx isr₁) idx isr₂ rdr) uart idx isr₃

unfoldable pub uart_irq_handler : Uart → ℕ → ℕ → ℕ → ℕ → ℕ → Uart
uart_irq_handler u uart isr₁ isr₂ rdr isr₃ =
    irq_at u uart isr₁ isr₂ rdr isr₃ (uart_get_index u uart)
