-- ===== src/Main/Boot.antt =====
-- `main` of app/main.c, from the clock to the start of the scheduler, which does not return. No
-- interrupt runs between its steps here; in the program the timer's can, from `systick_init` on.
use stm32_cli_os.Prelude.{ℕ, false, true, Option, none, some, ◌>>=◌, sub32}
use stm32_cli_os.Registers.{set_bit}
use stm32_cli_os.Utils.Strings.{codes}
use stm32_cli_os.Board.{Board}
use stm32_cli_os.SystemClock.{Clock, Hardware, system_clock_config_hz, get_system_clock_hz}
use stm32_cli_os.Systick.{SystickRegisters, systick_init}
use stm32_cli_os.Allocator.{null}
use stm32_cli_os.Stm32Alloc.{stm32_allocator_init}
use stm32_cli_os.Scheduler.{System, scheduler_init}
use stm32_cli_os.Scheduler.Create.{Image, task_create, scheduler_start}
use stm32_cli_os.Cli.{CliContext}
use stm32_cli_os.AppCommands.Register.{Addresses, start_cli}
use stm32_cli_os.Uart.{Uart, uart_enable_rx_interrupt, uart_enable_tx_interrupt}
use stm32_cli_os.Uart.Pins.{usart2}
use stm32_cli_os.Uart.Config.{UartConfig, wordlength_8b, parity_none, stopbits_1, uart_init}

-- The registers and the statics of the parts that `main` sets up.
pub record Machine : Type 0 where
  pub clock : Clock
  pub board : Board
  pub uart : Uart
  pub nvic_iser1 : ℕ
  pub basepri : ℕ
  pub systick : SystickRegisters
  pub system : System
  pub cli : CliContext

-- The addresses that the linker gives functions and symbols.
pub record Program : Type 0 where
  pub image : Image
  pub commands : Addresses
  pub task_blink : ℕ
  pub task_button_logger : ℕ
  pub cli_task_entry : ℕ
  pub uart2_getc : ℕ
  pub uart2_puts : ℕ
  pub end : ℕ
  pub heap_limit : ℕ

abbrev pub stack_size_1kb : ℕ
stack_size_1kb = 1024

abbrev pub stack_size_2kb : ℕ
stack_size_2kb = 2048

abbrev pub uart_config : UartConfig
uart_config = record {
  baud_rate = 115200;
  word_length = wordlength_8b;
  parity = parity_none;
  stop_bits = stopbits_1;
  over_sampling8 = false;
}

abbrev pub set_clock : Hardware → Machine → Machine
set_clock hw m = record m { clock = (system_clock_config_hz hw m.clock 80000000).1 }

-- The driver, the interrupt 38 in the NVIC, and the interrupts of the peripheral.
abbrev pub set_uart : Machine → Machine
set_uart m =
    let (status, board, uart) =
      uart_init m.board m.uart usart2 (some uart_config) (get_system_clock_hz m.clock) in
    record m {
      board = board;
      nvic_iser1 = set_bit m.nvic_iser1 6;
      uart = uart_enable_tx_interrupt (uart_enable_rx_interrupt uart usart2 true) usart2 true;
    }

abbrev pub set_heap : Program → Machine → Option Machine
set_heap p m =
    stm32_allocator_init p.end (sub32 p.heap_limit p.end)
      (record { basepri = m.basepri; heap = m.system.heap })
    >>= λ (result, cpu).
        some (record m { basepri = cpu.basepri; system = record (m.system) { heap = cpu.heap } })

-- The registers where `systick_init` fails are those before.
abbrev pub or_before : SystickRegisters → Option SystickRegisters → SystickRegisters
or_before before none = before
or_before before (some r) = r

abbrev pub set_scheduler : Machine → Machine
set_scheduler m = record m {
  system = scheduler_init m.system;
  systick = or_before m.systick (systick_init (get_system_clock_hz m.clock) 1000);
}

abbrev pub set_cli : Program → Machine → Machine
set_cli p m = record m { cli = start_cli p.commands (codes "OS> ") p.uart2_getc p.uart2_puts }

-- A call of `task_create`, with the id not used.
abbrev pub create : Image → ℕ → ℕ → System → Option System
create image task_func size s = task_create image s task_func null size >>= λ (id, s'). some s'

unfoldable pub create_tasks : Program → System → Option System
create_tasks p s = create p.image p.task_blink stack_size_1kb s >>= λ s₁.
    create p.image p.task_button_logger stack_size_1kb s₁ >>= λ s₂.
    create p.image p.cli_task_entry stack_size_2kb s₂ >>= λ s₃. some s₃

unfoldable pub main : Hardware → Program → Machine → Option Machine
main hw p m = set_heap p (set_uart (set_clock hw m)) >>= λ m₁.
    let m₂ = set_cli p (set_scheduler m₁) in
    create_tasks p m₂.system >>= λ s.
    scheduler_start p.image s >>= λ s'. some (record m₂ { system = s' })
