-- ===== src/Lib.antt =====
-- stm32_cli_os: models of the C sources of a small operating system for the STM32L476 (heap
-- allocator, preemptive scheduler, drivers and command line), and theorems on them.
--
-- The program: app/main.c sets up the clock, the UART and the heap, creates tasks and starts the
-- scheduler. Tasks get their stacks from the heap (core/allocator.c). The timer interrupt
-- (drivers/systick.c) counts ticks, wakes sleeping tasks and asks for a context switch
-- (core/context_switch.S), which lets core/scheduler.c choose the next task. The UART interrupt
-- (drivers/uart.c) fills and drains ring buffers that the command line task (core/cli.c) reads and
-- writes.
--
-- Where what is modelled:
--   * Prelude: library names, Boolean tests, lists and 32-bit words; Memory: the byte memory and
--     aligned words.
--   * Utils: core/utils.c: memcpy and memset, the bounded waits, and in Utils.Strings strcmp and
--     atoi. Registers: bits and fields of a register.
--   * Allocator: core/allocator.c. The block list lies in memory; Allocator.Blocks is the abstract
--     list with first-fit search, carving and coalescing, and Allocator.Chain says when a heap
--     represents one. Allocator.Resize has allocator_realloc, Allocator.Report the queries and the
--     integrity check, Allocator.Reach every sequence of calls.
--   * Scheduler: core/scheduler.c in the mode TASK_ALLOC_DYNAMIC and the pointers of
--     PendSV_Handler. A task pointer is an index of task_list. Scheduler.Create has task_create,
--     task_create_idle and scheduler_start, Scheduler.Control blocking, deletion, the stack check
--     and sleeping, Scheduler.Collect has task_garbage_collection; the other modules have lemmas
--     and theorems.
--   * Systick: drivers/systick.c.
--   * Stm32Alloc: core/stm32_alloc.c and the critical sections of core/utils.h.
--   * Cli: core/cli.c. Cli has the state and the command table, Cli.Printf cli_printf, Cli.Tokens
--     cli_tokenize, Cli.Task the processing of a line and the rounds of cli_task_entry. Cli.Split,
--     Cli.Words and Cli.Editor have the lists of characters that the line buffer stands for; the
--     other modules have theorems.
--   * SystemClock: core/system_clock.c; SystemClock.Fields reads the written registers back.
--   * AppCommands: app/app_commands.c; AppCommands.HeapTest has the heap test, by mode.
--   * Main: app/main.c; Main.Boot has `main`, Main the CLI functions and the tasks.
--   * Startup: startup/stm32l476_startup.c, with the vector table in Startup.Vectors.
--   * Board: drivers/led.c and drivers/button.c.
--   * Uart: drivers/uart.c: the instance table and the ring buffers; a byte that the code stores
--     behind uart_tx_buf is recorded as stray. Uart.Poll has the polling functions and uart_flush,
--     Uart.Config and Uart.Pins uart_init, Uart.Irq has the interrupt handler, Uart.Ring relates
--     positions to queues; Uart.Receive and Uart.Interrupt are about the receive ring, Uart.Send
--     about the transmit ring.
--
-- Words are numbers below 2 ^ 32 with the wrap-around written out. Loops over an index recurse on
-- the rounds left. Loops over the block list take fuel, one more than the capacity of the pool in
-- bytes; blocks have 8-byte headers and do not overlap, so that is enough, and the theorems on the
-- allocator give a result. The loops of the reset handler take one more round than the section has
-- bytes, and Startup.Loaded gives a result. A critical section is one step. The results of hardware
-- reads are arguments.
--
-- The string functions see a C string as the list of its characters. The line buffer of the command
-- line is an array, in which a pointer is an index. The loops on it are bounded by its 128
-- characters, which is enough as the line editor keeps 127. What a command's handler does is an
-- argument of the command line; app/app_commands.c is modelled apart. While the clock is set up or
-- a byte is awaited, what a register shows at each read is an argument.
--
-- Not modelled: the linker script, of which the reset handler and main use the addresses that it
-- defines. The assembly is modelled as far as it moves task pointers, with a current task. No
-- interrupt runs between the steps of main, though in the program the timer's can, from
-- systick_init on. The endless loops of the idle task, of task_exit and of the reboot command end
-- at their first step; the loop of cli_task_entry is modelled on any sequence of characters.
pub mod Allocator
pub mod AppCommands
pub mod Board
pub mod Cli
pub mod Main
pub mod Memory
pub mod Prelude
pub mod Registers
pub mod Scheduler
pub mod Startup
pub mod Stm32Alloc
pub mod SystemClock
pub mod Systick
pub mod Uart
pub mod Utils
