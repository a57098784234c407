-- ===== src/Uart/Tests.antt =====
-- The rings on one instance, and the theorems at concrete inputs.
use stm32_cli_os.Prelude.{ℕ, zero, suc, ◌≡◌, refl, put, some, [], ◌∷◌, arith}
use stm32_cli_os.Memory.{Mem}
use stm32_cli_os.Uart.{Uart, uart_get_index, index_loop, uart_read_buffer, uart_write_buffer}
use stm32_cli_os.Uart.Irq.{uart_irq_handler, irq_transmit, irq_errors, irq_receive, rx_push}
use stm32_cli_os.Uart.Interrupt.{Interrupted, irq-Interrupted, ReadOut, read-ReadOut}
use stm32_cli_os.Uart.Receive.{IsRing, rx_queue}
use stm32_cli_os.Uart.Send.{IsTxRing, Written, write-Written, Transmitted, transmit-Transmitted}

-- USART2 in slot 0, with two received bytes and one byte to send.
abbrev received : ℕ → ℕ
received = put (put (λ _. 0) 255 104) 0 105

abbrev uart : Uart
uart = record {
  instances = λ i. elim i [ zero ↦ 1073759232 | suc _ ↦ 0 ];
  rx_buf = received;
  rx_head = λ _. 1;
  rx_tail = λ _. 255;
  rx_overflow = λ _. 0;
  rx_errors = λ _. 0;
  tx_buf = λ _. 65;
  tx_head = λ _. 300;
  tx_tail = λ _. 299;
  tx_overflow = λ _. 0;
  rx_callback = λ _. 0;
  usart = λ _. record { cr1 = 141; cr2 = 0; brr = 0; icr = 0; tdr = 0 };
  called = [];
  stray = [];
}

abbrev source : Mem
source _ = 66

found : uart_get_index uart 1073759232 ≡ some 0
unfolding uart_get_index index_loop
found = refl

ring : IsRing uart 0
ring = record { head_lt = omega arith; tail_lt = omega arith }

tx_ring : IsTxRing uart 0
tx_ring = record { head_lt = omega arith; tail_lt = omega arith }

-- A byte that arrives comes out behind the two that wait.
in_order : rx_queue (uart_irq_handler uart 1073759232 32 32 33 0) 0 ≡ 104 ∷ 105 ∷ 33 ∷ []
unfolding uart_irq_handler uart_get_index index_loop irq_errors irq_receive rx_push irq_transmit
in_order = refl

irq-Interrupted_example : Interrupted uart 0 32 33 (uart_irq_handler uart 1073759232 32 32 33 0)
irq-Interrupted_example = irq-Interrupted uart 1073759232 0 found ring 32 32 33 0

read-ReadOut_example :
    ReadOut uart 1073759232 0 found ring source 8192 10
      (uart_read_buffer uart 1073759232 source 8192 10)
read-ReadOut_example = read-ReadOut uart 1073759232 0 found ring source 8192 10 (omega arith)

write-Written_example :
    Written uart 0 source 4096 5 0 (uart_write_buffer uart 1073759232 source 4096 5)
write-Written_example =
    write-Written uart 1073759232 0 (omega arith) found source 4096 5 (omega arith) tx_ring

transmit-Transmitted_example : Transmitted uart 1073759232 0 (irq_transmit uart 1073759232 0 128)
transmit-Transmitted_example = transmit-Transmitted uart 1073759232 0 128 tx_ring refl
