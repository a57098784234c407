-- ===== src/Systick.antt =====
-- drivers/systick.c: the tick counter, its interrupt, and the set-up of the timer.
use stm32_cli_os.Prelude.{
  ℕ, ◌+◌, ◌/◌, ◌%◌, ◌<◌, ◌≤◌, ◌≡◌, ◌≢◌, ap, ◌⊎◌, inl, inr, Bool, ◌||◌, Option, none, some, arith,
  ltb, ◌==◌, ==_iff, ltb→lt, ltb→le, Bool-cases, if◌then◌else◌, add32, sub32, u32,
}
use native.Mathlib.Nat.{div-le_self}
use stm32_cli_os.Scheduler.{System, yield_cpu}
use stm32_cli_os.Scheduler.Control.{scheduler_wake_sleeping_tasks}

unfoldable pub sys_tick_handler : System → System
sys_tick_handler s =
    yield_cpu (scheduler_wake_sleeping_tasks (record s { systick_ticks = add32 s.systick_ticks 1 }))

unfoldable pub systick_get_ticks : System → ℕ
systick_get_ticks s = s.systick_ticks

-- The condition of the loop of `systick_delay_ticks`, at a value of the counter.
unfoldable pub delay_waits : ℕ → ℕ → ℕ → Bool
delay_waits start ticks now = ltb (sub32 now start) ticks

-- The registers of the timer.
pub record SystickRegisters : Type 0 where
  pub csr : ℕ
  pub rvr : ℕ
  pub cvr : ℕ

abbrev pub reload_mask : ℕ
reload_mask = 16777215

-- The registers, with the three bits of `CSR` set: interrupt, clock source and enable. `none` is
-- the result -1.
unfoldable pub systick_init : ℕ → ℕ → Option SystickRegisters
systick_init sysclk_hz ticks_hz =
    let reload = sub32 (sysclk_hz / ticks_hz) 1 in
    if sysclk_hz == 0 || ticks_hz == 0
    then none
    else if ltb reload_mask reload
    then none
    else some (record { csr = 7; rvr = reload; cvr = 0 })

-- What the set-up of the timer gives for a clock and a rate.
abbrev pub Reload : ℕ → ℕ → Option SystickRegisters → Type 0
Reload sysclk_hz ticks_hz none =
    (ticks_hz ≡ 0) ⊎ (sysclk_hz / ticks_hz ≡ 0) ⊎ (reload_mask + 1 < sysclk_hz / ticks_hz)
Reload sysclk_hz ticks_hz (some r) =
    (0 < ticks_hz) × (r.rvr + 1 ≡ sysclk_hz / ticks_hz) × (r.rvr ≤ reload_mask)

-- For a clock below 2 ^ 32, `systick_init` either fails, and then the rate is 0, the quotient of
-- clock and rate is 0 or it exceeds 2 ^ 24, or it sets a reload value of 24 bits that is one less
-- than the quotient.
pub systick_init-Reload :
    (sysclk_hz ticks_hz : ℕ)
    → sysclk_hz < u32
    → Reload sysclk_hz ticks_hz (systick_init sysclk_hz ticks_hz)
unfolding systick_init
systick_init-Reload sysclk_hz ticks_hz range =
    let q : ℕ = sysclk_hz / ticks_hz in
    let small : q ≤ sysclk_hz = div-le_self sysclk_hz ticks_hz in
    elim (Bool-cases (sysclk_hz == 0)) [
      | inl off ↦ let e = (==_iff sysclk_hz 0).0 off in rw off (inr (inl (omega (arith, e, small))))
      | inr on ↦ elim (Bool-cases (ticks_hz == 0)) [
        | inl still ↦ rw (on, still) (inl ((==_iff ticks_hz 0).0 still))
        | inr ticking ↦
            let ne : ticks_hz ≢ 0 = λ e. absurd (cc (ticking, (==_iff ticks_hz 0).1 e)) in
            elim (Bool-cases (ltb reload_mask (sub32 q 1))) [
              | inl over ↦
                  let big = ltb→lt reload_mask (sub32 q 1) over in
                  rw (on, ticking, over) (inr (omega (arith, big, small, range)))
              | inr fits ↦
                  let le = ltb→le reload_mask (sub32 q 1) fits in
                  rw (on, ticking, fits) (omega (arith, ne), omega (arith, le, small, range), le)
            ]
      ]
    ]

-- `n` ticks after a start, both below 2 ^ 32, the loop of `systick_delay_ticks` goes on exactly if
-- `n` is less than the number of ticks to wait, even where the counter has wrapped around.
pub delay_waits-ltb :
    (start n ticks : ℕ)
    → start < u32
    → n < u32
    → delay_waits start ticks ((start + n) % u32) ≡ ltb n ticks
unfolding delay_waits
delay_waits-ltb start n ticks hs hn =
    let e : sub32 ((start + n) % u32) start ≡ n = omega (arith, hs, hn) in ap (λ x. ltb x ticks) e
