-- ===== src/Uart/Pins.antt =====
-- `uart_enable_clocks_and_pins` of drivers/uart.c.
use stm32_cli_os.Prelude.{ℕ, ltb, ◌==◌, if◌then◌else◌, ◌*◌, ◌%◌}
use stm32_cli_os.Registers.{set_bit, with_field}
use stm32_cli_os.Board.{Gpio, Board, set_mode}

-- The addresses of the peripherals.
abbrev pub usart1 : ℕ
usart1 = 1073821696

abbrev pub usart2 : ℕ
usart2 = 1073759232

abbrev pub usart3 : ℕ
usart3 = 1073760256

abbrev pub uart4 : ℕ
uart4 = 1073761280

abbrev pub uart5 : ℕ
uart5 = 1073762304

abbrev pub lpuart1 : ℕ
lpuart1 = 1073774592

-- `GPIO_SET_AF`.
unfoldable pub gpio_set_af : Gpio → ℕ → ℕ → Gpio
gpio_set_af g pin af =
    let g' = set_mode g pin 2 in
    if ltb pin 8
    then record g' { afr_low = with_field g'.afr_low (pin % 8 * 4) 4 af }
    else record g' { afr_high = with_field g'.afr_high (pin % 8 * 4) 4 af }

-- Two pins of one port.
abbrev pub set_pair : Gpio → ℕ → ℕ → ℕ → Gpio
set_pair g tx rx af = gpio_set_af (gpio_set_af g tx af) rx af

unfoldable pub uart_enable_clocks_and_pins : Board → ℕ → Board
uart_enable_clocks_and_pins b uart =
    if uart == usart1
    then record b {
      ahb2enr = set_bit b.ahb2enr 0;
      apb2enr = set_bit b.apb2enr 14;
      gpioa = set_pair b.gpioa 9 10 7;
    }
    else if uart == usart2
    then record b {
      ahb2enr = set_bit b.ahb2enr 0;
      apb1enr1 = set_bit b.apb1enr1 17;
      gpioa = set_pair b.gpioa 2 3 7;
    }
    else if uart == usart3
    then record b {
      ahb2enr = set_bit b.ahb2enr 1;
      apb1enr1 = set_bit b.apb1enr1 18;
      gpiob = set_pair b.gpiob 10 11 7;
    }
    else if uart == uart4
    then record b {
      ahb2enr = set_bit b.ahb2enr 2;
      apb1enr1 = set_bit b.apb1enr1 19;
      gpioc = set_pair b.gpioc 10 11 8;
    }
    else if uart == uart5
    then record b {
      ahb2enr = set_bit (set_bit b.ahb2enr 2) 3;
      apb1enr1 = set_bit b.apb1enr1 20;
      gpioc = gpio_set_af b.gpioc 12 8;
      gpiod = gpio_set_af b.gpiod 2 8;
    }
    else if uart == lpuart1
    then record b {
      ahb2enr = set_bit b.ahb2enr 2;
      apb1enr2 = set_bit b.apb1enr2 0;
      gpioc = set_pair b.gpioc 0 1 8;
    }
    else b
