-- ===== src/Uart.antt =====
-- drivers/uart.c: the table of instances, the ring buffers, and the functions around them. A
-- `USART_t *` is the address of the peripheral. What the hardware holds in `ISR` and `RDR` is an
-- argument of the functions that read them. A row of a two-dimensional array lies behind the row
-- before it, so `uart_tx_buf[idx][i]` is byte `256 * idx + i` as long as that is below `6 * 256`. A byte stored
-- behind the array goes to other statics: it is recorded as stray, and `tx_buf` has there what lies
-- behind the array.
pub mod Ring
pub mod Poll
pub mod Pins
pub mod Config
pub mod Irq
pub mod Receive
pub mod Interrupt
pub mod Send
mod Tests
pub use stm32_cli_os.Registers.{has_bit, set_bit, clear_bit}
use stm32_cli_os.Prelude.{
  ℕ, zero, suc, ◌+◌, ◌-◌, ◌*◌, ◌/◌, ◌%◌, ◌^◌, Bool, true, false, ◌&&◌, ◌||◌, not, Option, none,
  some, List, [], ◌∷◌, ◌++◌, ltb, ◌==◌, if◌then◌else◌, add32, put,
}
use stm32_cli_os.Memory.{Mem, store8}
use stm32_cli_os.Allocator.{null}

abbrev pub uart_max_instances : ℕ
uart_max_instances = 6

abbrev pub rx_buffer_size : ℕ
rx_buffer_size = 256

abbrev pub tx_buffer_size : ℕ
tx_buffer_size = 512

-- The registers that the driver writes.
pub record Usart : Type 0 where
  pub cr1 : ℕ
  pub cr2 : ℕ
  pub brr : ℕ
  pub icr : ℕ
  pub tdr : ℕ

-- The static arrays, the registers by the address of the peripheral, the calls of the callback so
-- far, each with its address and its byte, and the stray bytes, each with its offset from the start
-- of `uart_tx_buf`.
pub record Uart : Type 0 where
  pub instances : ℕ → ℕ
  pub rx_buf : ℕ → ℕ
  pub rx_head : ℕ → ℕ
  pub rx_tail : ℕ → ℕ
  pub rx_overflow : ℕ → ℕ
  pub rx_errors : ℕ → ℕ
  pub tx_buf : ℕ → ℕ
  pub tx_head : ℕ → ℕ
  pub tx_tail : ℕ → ℕ
  pub tx_overflow : ℕ → ℕ
  pub rx_callback : ℕ → ℕ
  pub usart : ℕ → Usart
  pub called : List (ℕ × ℕ)
  pub stray : List (ℕ × ℕ)

abbrev pub rxneie : ℕ
rxneie = 5

abbrev pub txeie : ℕ
txeie = 7

-- The loop of `uart_get_index`, with the rounds left.
unfoldable pub index_loop : (ℕ → ℕ) → ℕ → ℕ → ℕ → Option ℕ
index_loop instances uart zero i = none
index_loop instances uart (suc k) i =
    let rest = index_loop instances uart k (i + 1) in if instances i == uart then some i else rest

unfoldable pub uart_get_index : Uart → ℕ → Option ℕ
uart_get_index u uart = index_loop u.instances uart uart_max_instances 0

-- A free slot is taken, with its rings empty.
abbrev pub take_slot : Uart → ℕ → ℕ → Uart
take_slot u uart i = record u {
  instances = put u.instances i uart;
  rx_head = put u.rx_head i 0;
  rx_tail = put u.rx_tail i 0;
  rx_overflow = put u.rx_overflow i 0;
  rx_errors = put u.rx_errors i 0;
  tx_head = put u.tx_head i 0;
  tx_tail = put u.tx_tail i 0;
  tx_overflow = put u.tx_overflow i 0;
}

unfoldable pub register_loop : Uart → ℕ → ℕ → ℕ → Option ℕ × Uart
register_loop u uart zero i = (none, u)
register_loop u uart (suc k) i =
    let rest = register_loop u uart k (i + 1) in
    if u.instances i == uart
    then (some i, u)
    else if u.instances i == null
    then (some i, take_slot u uart i)
    else rest

unfoldable pub uart_register_instance : Uart → ℕ → Option ℕ × Uart
uart_register_instance u uart = register_loop u uart uart_max_instances 0

unfoldable pub uart_set_rx_callback : Uart → ℕ → ℕ → Uart
uart_set_rx_callback u uart cb = elim (uart_get_index u uart) [
  | none ↦ u
  | some idx ↦ record u { rx_callback = put u.rx_callback idx cb }
]

abbrev pub set_cr1 : Uart → ℕ → ℕ → Uart
set_cr1 u uart cr1 = record u { usart = put u.usart uart (record (u.usart uart) { cr1 = cr1 }) }

-- Bit `n` of `CR1` set if `enable`, else cleared.
abbrev pub switch_cr1 : Uart → ℕ → ℕ → Bool → Uart
switch_cr1 u uart n enable =
    let cr1 = (u.usart uart).cr1 in
    set_cr1 u uart (if enable then set_bit cr1 n else clear_bit cr1 n)

unfoldable pub uart_enable_rx_interrupt : Uart → ℕ → Bool → Uart
uart_enable_rx_interrupt u uart enable = if uart == null then u else switch_cr1 u uart rxneie enable

unfoldable pub uart_enable_tx_interrupt : Uart → ℕ → Bool → Uart
uart_enable_tx_interrupt u uart enable = if uart == null then u else switch_cr1 u uart txeie enable

-- The number of bytes between `tail` and `head`.
abbrev pub ring_used : ℕ → ℕ → ℕ → ℕ
ring_used size head tail = (head + size - tail) % size

unfoldable pub uart_available : Uart → ℕ → ℕ
uart_available u uart = elim (uart_get_index u uart) [
  | none ↦ 0
  | some idx ↦ ring_used rx_buffer_size (u.rx_head idx) (u.rx_tail idx)
]

unfoldable pub uart_tx_pending : Uart → ℕ → ℕ
uart_tx_pending u uart = elim (uart_get_index u uart) [
  | none ↦ 0
  | some idx ↦ ring_used tx_buffer_size (u.tx_head idx) (u.tx_tail idx)
]

unfoldable pub uart_get_overflow_count : Uart → ℕ → ℕ
uart_get_overflow_count u uart = elim (uart_get_index u uart) [
  | none ↦ 0
  | some idx ↦ u.rx_overflow idx
]

unfoldable pub uart_get_error_count : Uart → ℕ → ℕ
uart_get_error_count u uart = elim (uart_get_index u uart) [ none ↦ 0 | some idx ↦ u.rx_errors idx ]

-- The loop of `uart_read_buffer`, with `len - copied` rounds left: `copied`, the memory and `tail`.
unfoldable pub read_loop : (ℕ → ℕ) → ℕ → ℕ → Mem → ℕ → ℕ → ℕ → ℕ × Mem × ℕ
read_loop buf head zero m dst copied tail = (copied, m, tail)
read_loop buf head (suc k) m dst copied tail =
    let rest =
      read_loop buf head k (store8 m (dst + copied) (buf tail)) dst (copied + 1)
        ((tail + 1) % rx_buffer_size) in
    if head == tail then (copied, m, tail) else rest

-- Row `idx` of `uart_rx_buf` and of `uart_tx_buf`, which has rows of the same size.
abbrev pub row : (ℕ → ℕ) → ℕ → ℕ → ℕ
row buf idx i = buf (256 * idx + i)

unfoldable pub read_row : Uart → ℕ → Mem → ℕ → ℕ → ℕ × Mem × Uart
read_row u idx m dst len =
    let (copied, m', tail) =
      read_loop (row u.rx_buf idx) (u.rx_head idx) len m dst 0 (u.rx_tail idx) in
    (copied, m', record u { rx_tail = put u.rx_tail idx tail })

-- What follows `uart_get_index`.
abbrev pub read_at : Uart → Mem → ℕ → ℕ → Option ℕ → ℕ × Mem × Uart
read_at u m dst len none = (0, m, u)
read_at u m dst len (some idx) =
    if dst == null || len == 0 then (0, m, u) else read_row u idx m dst len

unfoldable pub uart_read_buffer : Uart → ℕ → Mem → ℕ → ℕ → ℕ × Mem × Uart
uart_read_buffer u uart m dst len = read_at u m dst len (uart_get_index u uart)

-- `uart_tx_buf` has rows of 256 bytes, as many as there are instances.
abbrev pub tx_buf_bytes : ℕ
tx_buf_bytes = 1536

-- A store at an offset from the start of `uart_tx_buf`.
abbrev pub store_tx : Uart → ℕ → ℕ → Uart
store_tx u a b =
    if ltb a tx_buf_bytes
    then record u { tx_buf = put u.tx_buf a b }
    else record u { stray = (a, b) ∷ u.stray }

-- The loop of `uart_write_buffer`, with `len - sent` rounds left.
unfoldable pub write_loop : ℕ → Uart → ℕ → Mem → ℕ → ℕ → ℕ × Uart
write_loop zero u idx m src sent = (sent, u)
write_loop (suc k) u idx m src sent =
    let head = u.tx_head idx in
    let next_head = (head + 1) % tx_buffer_size in
    let rest =
      write_loop k
        (record (store_tx u (256 * idx + head) (m (src + sent))) {
          tx_head = put u.tx_head idx next_head;
        })
        idx m src (sent + 1) in
    if next_head == u.tx_tail idx then (sent, u) else rest

abbrev pub write_row : Uart → ℕ → ℕ → Mem → ℕ → ℕ → ℕ × Uart
write_row u uart idx m src len =
    let (sent, u') = write_loop len u idx m src 0 in (sent, switch_cr1 u' uart txeie true)

-- What follows `uart_get_index`.
abbrev pub write_at : Uart → ℕ → Mem → ℕ → ℕ → Option ℕ → ℕ × Uart
write_at u uart m src len none = (0, u)
write_at u uart m src len (some idx) = write_row u uart idx m src len

unfoldable pub uart_write_buffer : Uart → ℕ → Mem → ℕ → ℕ → ℕ × Uart
uart_write_buffer u uart m src len =
    if uart == null then (0, u) else write_at u uart m src len (uart_get_index u uart)
