-- ===== src/Scheduler/Sleep.antt =====
-- Sleeping and waking: `task_sleep_ticks` and the tick interrupt.
use stm32_cli_os.Prelude.{
  ℕ, zero, suc, ◌+◌, ◌-◌, ◌<◌, ◌≤◌, ◌≡◌, ◌≢◌, ap, subst, ◌∙◌, false, some, arith, ==_ne, put, u32,
  add32,
}
use stm32_cli_os.Scheduler.{is_unused, System, task_unused, task_ready, task_blocked, yield_cpu}
use stm32_cli_os.Scheduler.Control.{block, sleep_from, wake, task_sleep_ticks}
use stm32_cli_os.Systick.{sys_tick_handler}
use stm32_cli_os.Scheduler.Ticks.{
  tick-wake, tick-clock, wake-early, wake-never, wake-due, ticks_later,
}

-- The slot of a sleeping task, until when it sleeps, and how the clock stands after `n` ticks.
record Sleeps (s : System) (cur until now : ℕ) : Type 0 where
  asleep : (s.task_list cur).state ≡ task_blocked
  deadline : (s.task_list cur).sleep_until_tick ≡ until
  clock : s.systick_ticks ≡ now
  in_table : cur < s.task_count

tick-Sleeps :
    (s : System) (cur until now : ℕ)
    → now + 1 < u32
    → now + 1 < until
    → Sleeps s cur until now
    → Sleeps (sys_tick_handler s) cur until (now + 1)
tick-Sleeps s cur until now small early z =
    let at = tick-wake s cur z.in_table in
    let clock = (tick-clock s).0 in
    let count = (tick-clock s).1 in
    let next : add32 s.systick_ticks 1 ≡ now + 1 = omega (arith, small, z.clock) in
    let same : wake (add32 s.systick_ticks 1) (s.task_list cur) ≡ s.task_list cur =
      wake-early (add32 s.systick_ticks 1) (s.task_list cur)
        (omega (arith, next, early, z.deadline)) in
    record {
      asleep = ap (λ t. t.state) (at ∙ same) ∙ z.asleep;
      deadline = ap (λ t. t.sleep_until_tick) (at ∙ same) ∙ z.deadline;
      clock = clock ∙ next;
      in_table = omega (arith, count, z.in_table);
    }

-- Without a deadline no tick wakes a blocked task.
lost-later :
    (n : ℕ) (s : System) (cur : ℕ)
    → cur < s.task_count
    → (s.task_list cur).state ≡ task_blocked
    → (s.task_list cur).sleep_until_tick ≡ 0
    → (((ticks_later n s).task_list cur).state ≡ task_blocked)
      × (((ticks_later n s).task_list cur).sleep_until_tick ≡ 0)
      × (cur < (ticks_later n s).task_count)
lost-later zero s cur lt b z = (b, z, lt)
lost-later (suc n) s cur lt b z =
    let (b', z', lt') = lost-later n s cur lt b z in
    let s₁ = ticks_later n s in
    let same = tick-wake s₁ cur lt' ∙ wake-never (add32 s₁.systick_ticks 1) (s₁.task_list cur) z' in
    (
      ap (λ t. t.state) same ∙ b',
      ap (λ t. t.sleep_until_tick) same ∙ z',
      omega (arith, (tick-clock s₁).1, lt'),
    )

-- A deadline that is not reached: the task sleeps on through `n` ticks.
Sleeps-later :
    (n : ℕ) (s : System) (cur until now : ℕ)
    → until < u32
    → now + n < until
    → Sleeps s cur until now
    → Sleeps (ticks_later n s) cur until (now + n)
Sleeps-later zero s cur until now small early z = let e : now ≡ now + 0 = omega arith in rw (← e) z
Sleeps-later (suc n) s cur until now small early z =
    let z' = Sleeps-later n s cur until now small (omega (arith, early)) z in
    let e : now + n + 1 ≡ now + suc n = omega arith in
    rw (← e) (
      tick-Sleeps (ticks_later n s) cur until (now + n) (omega (arith, small, early))
        (omega (arith, early)) z')

-- A deadline that the next tick reaches: the task wakes.
tick-wakes :
    (s : System) (cur until now : ℕ)
    → now + 1 < u32
    → 0 < until
    → until ≤ now + 1
    → Sleeps s cur until now
    → (((sys_tick_handler s).task_list cur).state ≡ task_ready)
      × (((sys_tick_handler s).task_list cur).sleep_until_tick ≡ 0)
tick-wakes s cur until now small pos due z =
    let at = tick-wake s cur z.in_table in
    let next : add32 s.systick_ticks 1 ≡ now + 1 = omega (arith, small, z.clock) in
    let w =
      wake-due (add32 s.systick_ticks 1) (s.task_list cur) z.asleep (omega (arith, z.deadline, pos))
        (omega (arith, z.deadline, due, next)) in
    (ap (λ t. t.state) at ∙ w.0, ap (λ t. t.sleep_until_tick) at ∙ w.1)

module _ (s : System) (cur ticks : ℕ) (current : s.task_current ≡ some cur)
    (in_table : cur < s.task_count) (used : (s.task_list cur).state ≢ task_unused)
    (busy : (s.task_list cur).is_idle ≡ false) (pos : 0 < ticks) where
  -- The task that called is blocked, with the sum of the clock and the ticks as its deadline.
  abbrev Slept : Type 0
  Slept =
      (s' : System) × (task_sleep_ticks s ticks ≡ some s')
      × Sleeps s' cur (add32 s.systick_ticks ticks) s.systick_ticks

  slept : Slept
  unfolding task_sleep_ticks yield_cpu
  slept =
      let live : is_unused (s.task_list cur).state ≡ false = ground (arith, used) in
      let until = add32 s.systick_ticks ticks in
      let s₁ = record s {
        task_list = put s.task_list cur (record (s.task_list cur) { sleep_until_tick = until });
      } in
      (
        yield_cpu (block s₁ cur),
        rw (==_ne ticks 0 (omega (arith, pos))) (ap (sleep_from s ticks) current),
        record {
          asleep = ground (arith, live, busy);
          deadline = ground (arith, live, busy);
          clock = ground (arith, live, busy);
          in_table = ground (arith, live, busy, in_table);
        },
      )

  -- Where the current task is in the table, used and not idle, and the clock plus a number of ticks
  -- above 0 stays below 2 ^ 32, `task_sleep_ticks` succeeds, the task is blocked through every
  -- smaller number of tick interrupts, and at exactly that number it is ready with no deadline.
  pub sleep-wakes :
      s.systick_ticks + ticks < u32
      → (s' : System) × (task_sleep_ticks s ticks ≡ some s')
        × ((n : ℕ) → n < ticks → ((ticks_later n s').task_list cur).state ≡ task_blocked)
        × (((ticks_later ticks s').task_list cur).state ≡ task_ready)
        × (((ticks_later ticks s').task_list cur).sleep_until_tick ≡ 0)
  sleep-wakes small =
      let (s', call, z) = slept in
      let now : ℕ = s.systick_ticks in
      let until : add32 now ticks ≡ now + ticks = omega (arith, small) in
      let z' = subst (λ u. Sleeps s' cur u now) until z in
      let on = λ (n : ℕ) (lt : n < ticks).
        Sleeps-later n s' cur (now + ticks) now small (omega (arith, lt)) z' in
      let k : ℕ = ticks - 1 in
      let last : suc k ≡ ticks = omega (arith, pos) in
      let w =
        tick-wakes (ticks_later k s') cur (now + ticks) (now + k) (omega (arith, small, last))
          (omega (arith, pos)) (omega (arith, last)) (on k (omega (arith, last))) in
      let done =
        subst
          (λ m.
            (((ticks_later m s').task_list cur).state ≡ task_ready)
            × (((ticks_later m s').task_list cur).sleep_until_tick ≡ 0))
          last w in
      (s', call, λ n lt. (on n lt).asleep, done.0, done.1)

  -- Where the current task is in the table, used and not idle, the clock is at most 2 ^ 32 - 2, and
  -- the clock plus a number of ticks (above 0 and below 2 ^ 32) exceeds 2 ^ 32, the next tick
  -- interrupt wakes the task.
  pub sleep_wraps :
      s.systick_ticks + 1 < u32
      → ticks < u32
      → u32 < s.systick_ticks + ticks
      → (s' : System) × (task_sleep_ticks s ticks ≡ some s')
        × (((sys_tick_handler s').task_list cur).state ≡ task_ready)
  sleep_wraps small range over =
      let (s', call, z) = slept in
      let now : ℕ = s.systick_ticks in
      (
        s',
        call,
        (tick-wakes s' cur (add32 now ticks) now small (omega (arith, range, over, small))
            (omega (arith, range, over, small)) z).0,
      )

  -- Where the current task is in the table, used and not idle, and the clock plus a number of ticks
  -- above 0 is exactly 2 ^ 32, `task_sleep_ticks` succeeds and no number of tick interrupts wakes
  -- the task.
  pub sleep_lost :
      s.systick_ticks + ticks ≡ u32
      → (s' : System) × (task_sleep_ticks s ticks ≡ some s')
        × ((n : ℕ) → ((ticks_later n s').task_list cur).state ≡ task_blocked)
  sleep_lost wrap =
      let (s', call, z) = slept in
      let none_set : add32 s.systick_ticks ticks ≡ 0 = omega (arith, wrap) in
      (s', call, λ n. (lost-later n s' cur z.in_table z.asleep (z.deadline ∙ none_set)).0)
