-- ===== src/Scheduler/Ticks.antt =====
-- What a tick interrupt does to one slot of the table.
use stm32_cli_os.Prelude.{
  ℕ, zero, suc, ◌+◌, ◌<◌, ◌≤◌, ◌≡◌, ◌≢◌, refl, sym, ap, ◌∙◌, inl, inr, arith, ◌==◌, ==_iff,
  Bool-cases, put, add32,
}
use stm32_cli_os.Scheduler.{System, Task, task_ready, task_blocked, yield_cpu}
use stm32_cli_os.Scheduler.Control.{wake, wake_loop, scheduler_wake_sleeping_tasks}
use stm32_cli_os.Systick.{sys_tick_handler}

wake_loop-behind :
    (ticks k : ℕ) (list : ℕ → Task) (i j : ℕ) → j < i → wake_loop ticks k list i j ≡ list j
unfolding wake_loop
wake_loop-behind ticks zero list i j lt = refl
wake_loop-behind ticks (suc k) list i j lt =
    wake_loop-behind ticks k (put list i (wake ticks (list i))) (i + 1) j (omega arith)
    ∙ ground (arith, lt)

-- The loop wakes each slot of its range once.
wake_loop-wake :
    (ticks k : ℕ) (list : ℕ → Task) (i j : ℕ)
    → i ≤ j
    → j < i + k
    → wake_loop ticks k list i j ≡ wake ticks (list j)
unfolding wake_loop
wake_loop-wake ticks zero list i j le lt = absurd (omega (arith, le, lt))
wake_loop-wake ticks (suc k) list i j le lt = elim (Bool-cases (j == i)) [
  | inl here ↦
      let list' = put list i (wake ticks (list i)) in
      let e : j ≡ i = (==_iff j i).0 here in
      wake_loop-behind ticks k list' (i + 1) j (omega (arith, e))
      ∙ rw here (ap (λ x. wake ticks (list x)) (sym e))
  | inr there ↦
      let ne : j ≢ i = λ e. absurd (cc (there, (==_iff j i).1 e)) in
      wake_loop-wake ticks k (put list i (wake ticks (list i))) (i + 1) j (omega (arith, le, ne))
        (omega (arith, lt))
      ∙ rw there refl
]

-- A tick wakes each slot of the table once.
pub tick-wake :
    (s : System) (j : ℕ)
    → j < s.task_count
    → (sys_tick_handler s).task_list j ≡ wake (add32 s.systick_ticks 1) (s.task_list j)
unfolding sys_tick_handler scheduler_wake_sleeping_tasks yield_cpu
tick-wake s j lt =
    wake_loop-wake (add32 s.systick_ticks 1) s.task_count s.task_list 0 j (omega arith)
      (omega (arith, lt))

pub tick-clock :
    (s : System)
    → ((sys_tick_handler s).systick_ticks ≡ add32 s.systick_ticks 1)
      × ((sys_tick_handler s).task_count ≡ s.task_count)
unfolding sys_tick_handler scheduler_wake_sleeping_tasks yield_cpu
tick-clock s = (refl, refl)

pub wake-early : (ticks : ℕ) (t : Task) → ticks < t.sleep_until_tick → wake ticks t ≡ t
wake-early ticks t early = ground (arith, early)

pub wake-never : (ticks : ℕ) (t : Task) → t.sleep_until_tick ≡ 0 → wake ticks t ≡ t
wake-never ticks t zero_tick = ground (arith, zero_tick)

pub wake-due :
    (ticks : ℕ) (t : Task)
    → t.state ≡ task_blocked
    → 0 < t.sleep_until_tick
    → t.sleep_until_tick ≤ ticks
    → ((wake ticks t).state ≡ task_ready) × ((wake ticks t).sleep_until_tick ≡ 0)
wake-due ticks t asleep pos due = ground (arith, asleep, pos, due)

-- `n` tick interrupts.
abbrev pub ticks_later : ℕ → System → System
ticks_later zero s = s
ticks_later (suc n) s = sys_tick_handler (ticks_later n s)
