-- ===== src/Scheduler/Stranded.antt =====
-- `task_unblock` of a task that sleeps.
use stm32_cli_os.Prelude.{
  ℕ, zero, suc, ◌<◌, ◌≡◌, ◌≢◌, refl, ap, ◌∙◌, true, false, some, arith, add32, ==_iff,
}
use stm32_cli_os.Scheduler.{System, Task, task_ready, task_blocked, runnable, is_blocked, set_state}
use stm32_cli_os.Scheduler.Control.{task_unblock, wake}
use stm32_cli_os.Scheduler.Ticks.{ticks_later, tick-wake, tick-clock}

wake-ready : (ticks : ℕ) (t : Task) → t.state ≡ task_ready → wake ticks t ≡ t
wake-ready ticks t e = ground (arith, e)

sleeping-runnable : (t : Task) → t.sleep_until_tick ≢ 0 → runnable t ≡ false
sleeping-runnable t e = ground (arith, e)

ready-later :
    (n : ℕ) (s : System) (i : ℕ)
    → i < s.task_count
    → (s.task_list i).state ≡ task_ready
    → ((ticks_later n s).task_list i ≡ s.task_list i) × (i < (ticks_later n s).task_count)
ready-later zero s i lt ready = (refl, lt)
ready-later (suc n) s i lt ready =
    let (same, lt') = ready-later n s i lt ready in
    let s₁ = ticks_later n s in
    (
      tick-wake s₁ i lt'
          ∙ wake-ready (add32 s₁.systick_ticks 1) (s₁.task_list i) (ap (λ t. t.state) same ∙ ready)
          ∙ same,
      omega (arith, (tick-clock s₁).1, lt'),
    )

-- `task_unblock` of a blocked task of the table that has a deadline makes it ready, but after any
-- number of tick interrupts it is still ready and not runnable.
pub unblock-runnable :
    (s : System) (i : ℕ)
    → i < s.task_count
    → (s.task_list i).state ≡ task_blocked
    → (s.task_list i).sleep_until_tick ≢ 0
    → (n : ℕ)
    → (((ticks_later n (task_unblock s (some i))).task_list i).state ≡ task_ready)
      × (runnable ((ticks_later n (task_unblock s (some i))).task_list i) ≡ false)
unfolding task_unblock
unblock-runnable s i lt blocked asleep n =
    let on : is_blocked (s.task_list i).state ≡ true = ap is_blocked blocked in
    let s' = set_state s i task_ready in
    let t = record (s.task_list i) { state = task_ready } in
    let slot : s'.task_list i ≡ t = rw ((==_iff i i).1 refl) refl in
    let same = (ready-later n s' i lt (ap (λ u. u.state) slot)).0 ∙ slot in
    rw on (ap (λ u. u.state) same, ap runnable same ∙ sleeping-runnable t asleep)
