-- ===== src/Main/Tests.antt =====
-- `main` on a board at reset, with a heap of 64 KB, for a hardware that answers each wait.
use stm32_cli_os.Prelude.{refl, arith, false, none, []}
use stm32_cli_os.Scheduler.{no_task}
use stm32_cli_os.SystemClock.{
  Hardware, vos_set, msi_ready, hsi_ready, hsi_used, pll_ready, pll_used,
}
use stm32_cli_os.Main.Boot.{Machine, Program, main}
use stm32_cli_os.Main.AllStarted.{Starts, main-Starts}
use stm32_cli_os.Main.Booted.{IsLinked, Booted, main-Booted}

abbrev answers : Hardware
answers vos_set n = 512
answers msi_ready n = 2
answers hsi_ready n = 1024
answers hsi_used n = 4
answers pll_ready n = 33554432
answers pll_used n = 12
answers _ n = 0

abbrev program : Program
program = record {
  image = record { task_exit = 134219777; task_idle_function = 134218881 };
  commands = record {
    help = 134217985;
    heap_stats = 134218241;
    task_list = 134218497;
    uptime = 134218753;
    kill = 134219009;
    reboot = 134219265;
    heap_test = 134219521;
  };
  task_blink = 134220033;
  task_button_logger = 134220289;
  cli_task_entry = 134220545;
  uart2_getc = 134220801;
  uart2_puts = 134221057;
  end = 536903680;
  heap_limit = 536969216;
}

abbrev machine : Machine
machine = record {
  clock = record {
    rcc_cr = 99;
    rcc_cfgr = 0;
    rcc_pllcfgr = 4096;
    rcc_apb1enr1 = 0;
    pwr_cr1 = 512;
    flash_acr = 1536;
    system_clock_val_hz = 4000000;
  };
  board = record {
    ahb2enr = 0;
    apb1enr1 = 0;
    apb1enr2 = 0;
    apb2enr = 0;
    gpioa = record { moder = 2885681151; odr = 0; afr_low = 0; afr_high = 0 };
    gpiob = record { moder = 4294966975; odr = 0; afr_low = 0; afr_high = 0 };
    gpioc = record { moder = 4294967295; odr = 0; afr_low = 0; afr_high = 0 };
    gpiod = record { moder = 4294967295; odr = 0; afr_low = 0; afr_high = 0 };
  };
  uart = record {
    instances = λ _. 0;
    rx_buf = λ _. 0;
    rx_head = λ _. 0;
    rx_tail = λ _. 0;
    rx_overflow = λ _. 0;
    rx_errors = λ _. 0;
    tx_buf = λ _. 0;
    tx_head = λ _. 0;
    tx_tail = λ _. 0;
    tx_overflow = λ _. 0;
    rx_callback = λ _. 0;
    usart = λ _. record { cr1 = 0; cr2 = 0; brr = 0; icr = 0; tdr = 0 };
    called = [];
    stray = [];
  };
  nvic_iser1 = 0;
  basepri = 0;
  systick = record { csr = 0; rvr = 0; cvr = 0 };
  system = record {
    heap = record {
      mem = λ _. 0;
      head = 0;
      mem_capacity = 0;
      free_mem = 0;
      allocated_mem = 0;
      free_blocks = 0;
      allocated_blocks = 0;
    };
    task_list = λ _. no_task;
    task_current = none;
    task_next = none;
    idle_task = none;
    task_count = 0;
    task_current_index = 0;
    next_task_id = 0;
    systick_ticks = 0;
    pend_sv = false;
  };
  cli = record {
    commands = λ _. record { name = none; help = []; handler = 0 };
    cmd_count = 0;
    line_buffer = λ _. 0;
    line_pos = 0;
    getc = 0;
    puts = 0;
    prompt = [];
    output = [];
  };
}

linked : IsLinked program
linked = record {
  exit = omega arith;
  idle = omega arith;
  blink = omega arith;
  button_logger = omega arith;
  cli = omega arith;
  idle_there = refl;
  blink_there = refl;
  button_logger_there = refl;
  cli_there = refl;
  help = refl;
  heap_stats = refl;
  task_list = refl;
  uptime = refl;
  kill = refl;
  reboot = refl;
  heap_test = refl;
  start = omega arith;
  room = omega arith;
  top = omega arith;
  whole = refl;
}

main-Booted_example : Booted answers program machine (main answers program machine)
main-Booted_example = main-Booted answers program linked machine refl refl

main-Starts_example : Starts (main answers program machine)
main-Starts_example = main-Starts answers program linked machine (omega arith) refl
