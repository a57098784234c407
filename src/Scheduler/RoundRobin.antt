-- ===== src/Scheduler/RoundRobin.antt =====
-- Which task `schedule_next_task` chooses.
use stm32_cli_os.Prelude.{
  ℕ, zero, suc, ◌+◌, ◌-◌, ◌%◌, ◌<◌, ◌≡◌, refl, sym, ap, subst, ◌∙◌, inl, inr, true, false, Option,
  none, some, arith, ltb, ltb→lt, ltb→le, ==_ne, Bool-cases, put,
}
use native.Mathlib.Nat.{mod-add-mod, mod-eq_of_lt, add-mod_right}
use stm32_cli_os.Scheduler.{
  System, Task, is_ready, dispatch, idle_or_stay, schedule_from, task_ready, task_running, runnable,
  round_robin, preempt, choose, schedule_next_task,
}

module _ (list : ℕ → Task) (count : ℕ) where
  -- No runnable task among the `k` from `start` on, around the table.
  abbrev pub Skips : ℕ → ℕ → Type 0
  Skips start k = (e : ℕ) → e < k → runnable (list ((start + e) % count)) ≡ false

  -- The first runnable task from `start` on.
  abbrev pub First : ℕ → ℕ → Option ℕ → Type 0
  First start k none = Skips start k
  First start k (some i) =
      (d : ℕ) × (d < k) × (i ≡ (start + d) % count) × (runnable (list i) ≡ true) × Skips start d

  Skips-suc :
      (start k : ℕ)
      → runnable (list (start % count)) ≡ false
      → Skips (suc start) k
      → Skips start (suc k)
  Skips-suc start k off f zero lt = ap (λ x. runnable (list (x % count))) (omega arith) ∙ off
  Skips-suc start k off f (suc e) lt =
      ap (λ x. runnable (list (x % count))) (omega arith) ∙ f e (omega arith)

  First-suc :
      (start k : ℕ) (o : Option ℕ)
      → runnable (list (start % count)) ≡ false
      → First (suc start) k o
      → First start (suc k) o
  First-suc start k none off f = Skips-suc start k off f
  First-suc start k (some i) off (d, lt, here, on, before) = (
    suc d,
    omega arith,
    here ∙ ap (λ x. x % count) (omega arith),
    on,
    Skips-suc start d off before,
  )

  pub round_robin-First : (start k : ℕ) → First start k (round_robin list count k (start % count))
  unfolding round_robin
  round_robin-First start zero = λ e lt. elim lt [ ]
  round_robin-First start (suc k) = elim (Bool-cases (runnable (list (start % count)))) [
    | inl on ↦ rw on (zero, omega arith, ap (λ x. x % count) (omega arith), on, λ e lt. elim lt [ ])
    | inr off ↦
        let step = mod-add-mod start count 1 ∙ ap (λ x. x % count) (omega arith) in
        rw (off, step) (First-suc start k _ off (round_robin-First (suc start) k))
  ]

-- Every slot is at some distance behind the current one.
pub distance :
    (cur j count : ℕ)
    → cur < count
    → j < count
    → (d : ℕ) × (d < count) × (j ≡ (suc cur + d) % count)
distance cur j count hc hj = elim (Bool-cases (ltb cur j)) [
  | inl ahead ↦
      let more = ltb→lt cur j ahead in
      let e : suc cur + (j - suc cur) ≡ j = omega arith in
      (j - suc cur, omega arith, sym (ap (λ x. x % count) e ∙ mod-eq_of_lt hj))
  | inr behind ↦
      let less = ltb→le cur j behind in
      let e : suc cur + (j + count - suc cur) ≡ j + count = omega arith in
      (
        j + count - suc cur,
        omega arith,
        sym (ap (λ x. x % count) e ∙ add-mod_right j count ∙ mod-eq_of_lt hj),
      )
]

-- What is dispatched from the preempted state `t`.
abbrev pub Dispatched : System → Option ℕ → System → Type 0
Dispatched t (some i) s' =
    (s'.task_next ≡ some i)
    × (s'.task_current_index ≡ i)
    × (s'.task_count ≡ t.task_count)
    × (s'.task_list ≡ put t.task_list i (record (t.task_list i) { state = task_running }))
Dispatched t none s' =
    ((j : ℕ) → j < t.task_count → runnable (t.task_list j) ≡ false)
    × ((i : ℕ)
        → t.idle_task ≡ some i
        → (t.task_list i).state ≡ task_ready
        → (s'.task_next ≡ some i)
          × (s'.task_list ≡ put t.task_list i (record (t.task_list i) { state = task_running })))

module _ (t : System) (size : t.task_current_index < t.task_count) where
  abbrev pub chosen : Option ℕ
  chosen =
      round_robin t.task_list t.task_count t.task_count ((t.task_current_index + 1) % t.task_count)

  pub chosen-First : First t.task_list t.task_count (suc t.task_current_index) t.task_count chosen
  chosen-First =
      let e : t.task_current_index + 1 ≡ suc t.task_current_index = omega arith in
      rw e (round_robin-First t.task_list t.task_count (suc t.task_current_index) t.task_count)

  none-runnable :
      Skips t.task_list t.task_count (suc t.task_current_index) t.task_count
      → (j : ℕ) → j < t.task_count
      → runnable (t.task_list j) ≡ false
  none-runnable skips j lt =
      let (d, small, e) = distance t.task_current_index j t.task_count size lt in
      rw e (skips d small)

  idle-next :
      (o : Option ℕ) (i : ℕ)
      → o ≡ some i
      → (t.task_list i).state ≡ task_ready
      → ((idle_or_stay t o).task_next ≡ some i)
        × ((idle_or_stay t o).task_list
            ≡ put t.task_list i (record (t.task_list i) { state = task_running }))
  idle-next o i e ready =
      let on : is_ready (t.task_list i).state ≡ true = ap is_ready ready in
      subst
        (λ p.
          ((idle_or_stay t p).task_next ≡ some i)
          × ((idle_or_stay t p).task_list
              ≡ put t.task_list i (record (t.task_list i) { state = task_running })))
        (sym e) (rw on (refl, refl))

  dispatch-Dispatched :
      (o : Option ℕ)
      → First t.task_list t.task_count (suc t.task_current_index) t.task_count o
      → Dispatched t o (dispatch t o)
  dispatch-Dispatched none skips = (none-runnable skips, λ i e r. idle-next t.idle_task i e r)
  dispatch-Dispatched (some i) f = (refl, refl, refl, refl)

  pub choose-First :
      (o : Option ℕ) × First t.task_list t.task_count (suc t.task_current_index) t.task_count o
      × Dispatched t o (choose t)
  unfolding choose
  choose-First = (chosen, chosen-First, dispatch-Dispatched chosen chosen-First)

pub schedule_next_task-choose :
    (s : System) (cur : ℕ)
    → s.task_current ≡ some cur
    → 0 < s.task_count
    → schedule_next_task s ≡ choose (preempt s cur)
unfolding schedule_next_task
schedule_next_task-choose s cur started pos =
    rw (==_ne s.task_count 0 (omega arith)) (ap (schedule_from s) started)

pub preempt-same :
    (s : System) (cur : ℕ)
    → ((preempt s cur).task_count ≡ s.task_count)
      × ((preempt s cur).task_current_index ≡ s.task_current_index)
      × ((preempt s cur).idle_task ≡ s.idle_task)
preempt-same s cur = ground arith

-- What the choice means for the state before it.
abbrev pub Schedules : System → ℕ → System → Type 0
Schedules s cur s' =
    let t = preempt s cur in
    (o : Option ℕ) × First t.task_list t.task_count (suc t.task_current_index) t.task_count o
    × Dispatched t o s'

-- With a current task and the index in the table, `schedule_next_task` makes a running task ready,
-- then starts the first runnable slot behind the index, around the table; where no slot is runnable
-- it starts the idle task if that is ready.
pub schedule-First :
    (s : System) (cur : ℕ)
    → s.task_current ≡ some cur
    → s.task_current_index < s.task_count
    → Schedules s cur (schedule_next_task s)
schedule-First s cur started size =
    let (count, index, _) = preempt-same s cur in
    subst (Schedules s cur) (sym (schedule_next_task-choose s cur started (omega (arith, size))))
      (choose-First (preempt s cur) (omega (arith, count, index, size)))
