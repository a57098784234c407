-- ===== src/Startup/Vectors.antt =====
-- The vector table of startup/stm32l476_startup.c, with the functions that it names.
use stm32_cli_os.Prelude.{ℕ, zero, suc, ◌+◌, ◌≡◌, refl, Option, none, some, List, [], ◌∷◌}

-- The functions of the table. Each but the first is an alias of the default handler, which loops,
-- unless the program defines it.
pub data Handler : Type 0 where
  reset_handler : Handler
  nmi_handler hardfault_handler memmanage_handler : Handler
  busfault_handler usagefault_handler svc_handler : Handler
  debugmon_handler pendsv_handler systick_handler : Handler
  wwdg_irq_handler pvd_pvm_irq_handler tamp_stamp_irq_handler : Handler
  rtc_wkup_irq_handler flash_irq_handler rcc_irq_handler : Handler
  exti0_irq_handler exti1_irq_handler exti2_irq_handler : Handler
  exti3_irq_handler exti4_irq_handler dma1_channel1_irq_handler : Handler
  dma1_channel2_irq_handler dma1_channel3_irq_handler dma1_channel4_irq_handler : Handler
  dma1_channel5_irq_handler dma1_channel6_irq_handler dma1_channel7_irq_handler : Handler
  adc1_2_irq_handler can1_tx_irq_handler can1_rx0_irq_handler : Handler
  can1_rx1_irq_handler can1_sce_irq_handler exti9_5_irq_handler : Handler
  tim1_brk_tim15_irq_handler tim1_up_tim16_irq_handler tim1_trg_com_tim17_irq_handler : Handler
  tim1_cc_irq_handler tim2_irq_handler tim3_irq_handler : Handler
  tim4_irq_handler i2c1_ev_irq_handler i2c1_er_irq_handler : Handler
  i2c2_ev_irq_handler i2c2_er_irq_handler spi1_irq_handler : Handler
  spi2_irq_handler usart1_irq_handler usart2_irq_handler : Handler
  usart3_irq_handler exti15_10_irq_handler rtc_alarm_irq_handler : Handler
  dfsdm3_irq_handler tim8_brk_irq_handler tim8_up_irq_handler : Handler
  tim8_trg_com_irq_handler tim8_cc_irq_handler adc3_irq_handler : Handler
  fmc_irq_handler sdmmc1_irq_handler tim5_irq_handler : Handler
  spi3_irq_handler uart4_irq_handler uart5_irq_handler : Handler
  tim6_dac_irq_handler tim7_irq_handler dma2_channel1_irq_handler : Handler
  dma2_channel2_irq_handler dma2_channel3_irq_handler dma2_channel4_irq_handler : Handler
  dma2_channel5_irq_handler dfsdm0_irq_handler dfsdm1_irq_handler : Handler
  dfsdm2_irq_handler comp_irq_handler lptim1_irq_handler : Handler
  lptim2_irq_handler otg_fs_irq_handler dma2_channel6_irq_handler : Handler
  dma2_channel7_irq_handler lpuart1_irq_handler quadspi_irq_handler : Handler
  i2c3_ev_irq_handler i2c3_er_irq_handler sai1_irq_handler : Handler
  sai2_irq_handler swpmi1_irq_handler tsc_irq_handler : Handler
  lcd_irq_handler rng_irq_handler fpu_irq_handler : Handler

pub data Vector : Type 0 where
  initial_stack reserved : Vector
  code : Handler → Vector

abbrev pub vectors : List Vector
vectors =
    initial_stack
    ∷ code reset_handler
    ∷ code nmi_handler
    ∷ code hardfault_handler
    ∷ code memmanage_handler
    ∷ code busfault_handler
    ∷ code usagefault_handler
    ∷ reserved
    ∷ reserved
    ∷ reserved
    ∷ reserved
    ∷ code svc_handler
    ∷ code debugmon_handler
    ∷ reserved
    ∷ code pendsv_handler
    ∷ code systick_handler
    ∷ code wwdg_irq_handler
    ∷ code pvd_pvm_irq_handler
    ∷ code tamp_stamp_irq_handler
    ∷ code rtc_wkup_irq_handler
    ∷ code flash_irq_handler
    ∷ code rcc_irq_handler
    ∷ code exti0_irq_handler
    ∷ code exti1_irq_handler
    ∷ code exti2_irq_handler
    ∷ code exti3_irq_handler
    ∷ code exti4_irq_handler
    ∷ code dma1_channel1_irq_handler
    ∷ code dma1_channel2_irq_handler
    ∷ code dma1_channel3_irq_handler
    ∷ code dma1_channel4_irq_handler
    ∷ code dma1_channel5_irq_handler
    ∷ code dma1_channel6_irq_handler
    ∷ code dma1_channel7_irq_handler
    ∷ code adc1_2_irq_handler
    ∷ code can1_tx_irq_handler
    ∷ code can1_rx0_irq_handler
    ∷ code can1_rx1_irq_handler
    ∷ code can1_sce_irq_handler
    ∷ code exti9_5_irq_handler
    ∷ code tim1_brk_tim15_irq_handler
    ∷ code tim1_up_tim16_irq_handler
    ∷ code tim1_trg_com_tim17_irq_handler
    ∷ code tim1_cc_irq_handler
    ∷ code tim2_irq_handler
    ∷ code tim3_irq_handler
    ∷ code tim4_irq_handler
    ∷ code i2c1_ev_irq_handler
    ∷ code i2c1_er_irq_handler
    ∷ code i2c2_ev_irq_handler
    ∷ code i2c2_er_irq_handler
    ∷ code spi1_irq_handler
    ∷ code spi2_irq_handler
    ∷ code usart1_irq_handler
    ∷ code usart2_irq_handler
    ∷ code usart3_irq_handler
    ∷ code exti15_10_irq_handler
    ∷ code rtc_alarm_irq_handler
    ∷ code dfsdm3_irq_handler
    ∷ code tim8_brk_irq_handler
    ∷ code tim8_up_irq_handler
    ∷ code tim8_trg_com_irq_handler
    ∷ code tim8_cc_irq_handler
    ∷ code adc3_irq_handler
    ∷ code fmc_irq_handler
    ∷ code sdmmc1_irq_handler
    ∷ code tim5_irq_handler
    ∷ code spi3_irq_handler
    ∷ code uart4_irq_handler
    ∷ code uart5_irq_handler
    ∷ code tim6_dac_irq_handler
    ∷ code tim7_irq_handler
    ∷ code dma2_channel1_irq_handler
    ∷ code dma2_channel2_irq_handler
    ∷ code dma2_channel3_irq_handler
    ∷ code dma2_channel4_irq_handler
    ∷ code dma2_channel5_irq_handler
    ∷ code dfsdm0_irq_handler
    ∷ code dfsdm1_irq_handler
    ∷ code dfsdm2_irq_handler
    ∷ code comp_irq_handler
    ∷ code lptim1_irq_handler
    ∷ code lptim2_irq_handler
    ∷ code otg_fs_irq_handler
    ∷ code dma2_channel6_irq_handler
    ∷ code dma2_channel7_irq_handler
    ∷ code lpuart1_irq_handler
    ∷ code quadspi_irq_handler
    ∷ code i2c3_ev_irq_handler
    ∷ code i2c3_er_irq_handler
    ∷ code sai1_irq_handler
    ∷ code sai2_irq_handler
    ∷ code swpmi1_irq_handler
    ∷ code tsc_irq_handler
    ∷ code lcd_irq_handler
    ∷ reserved
    ∷ code rng_irq_handler
    ∷ code fpu_irq_handler
    ∷ []

abbrev pub vector_at : List Vector → ℕ → Option Vector
vector_at [] n = none
vector_at (v ∷ vs) zero = some v
vector_at (v ∷ vs) (suc n) = vector_at vs n

-- The vector of an interrupt of the peripherals: they stand behind the 16 of the core.
abbrev pub irq_vector : ℕ → Option Vector
irq_vector irq = vector_at vectors (irq + 16)

usart2_vector : irq_vector 38 ≡ some (code usart2_irq_handler)
usart2_vector = refl

pend_sv_vector : vector_at vectors 14 ≡ some (code pendsv_handler)
pend_sv_vector = refl

systick_vector : vector_at vectors 15 ≡ some (code systick_handler)
systick_vector = refl
