-- ===== src/Scheduler/Chosen.antt =====
-- `schedule_next_task` on every branch, in terms of the state before it.
use stm32_cli_os.Prelude.{
  ℕ, suc, ◌+◌, ◌%◌, ◌<◌, ◌≤◌, ◌≡◌, ◌≢◌, refl, sym, subst, ◌∙◌, ◌⊎◌, inl, inr, ◌↔◌, Bool, true,
  false, not, ◌&&◌, Option, none, some, some_value, arith, ltb, ltb→lt, ltb→le, ◌==◌, ==_iff, ==_ne,
  Bool-cases, put,
}
use stm32_cli_os.Scheduler.{
  System, Task, TaskState, task_unused, task_ready, task_running, task_blocked, task_zombie,
  is_ready, is_running, dispatch, idle_or_stay, runnable, preempt, choose, schedule_next_task,
  set_state,
}
use stm32_cli_os.Scheduler.RoundRobin.{
  First, distance, chosen, chosen-First, schedule_next_task-choose,
}

-- The task can be given the processor by the round robin.
abbrev pub IsRunnable : Task → Type 0
IsRunnable t = (t.state ≡ task_ready) × (t.is_idle ≡ false) × (t.sleep_until_tick ≡ 0)

is_ready_iff : (st : TaskState) → (is_ready st ≡ true) ↔ (st ≡ task_ready)
is_ready_iff task_ready = (λ e. refl, λ e. refl)
is_ready_iff task_unused = (λ e. absurd (cc e), λ e. absurd (cc e))
is_ready_iff task_running = (λ e. absurd (cc e), λ e. absurd (cc e))
is_ready_iff task_blocked = (λ e. absurd (cc e), λ e. absurd (cc e))
is_ready_iff task_zombie = (λ e. absurd (cc e), λ e. absurd (cc e))

is_running_iff : (st : TaskState) → (is_running st ≡ true) ↔ (st ≡ task_running)
is_running_iff task_running = (λ e. refl, λ e. refl)
is_running_iff task_unused = (λ e. absurd (cc e), λ e. absurd (cc e))
is_running_iff task_ready = (λ e. absurd (cc e), λ e. absurd (cc e))
is_running_iff task_blocked = (λ e. absurd (cc e), λ e. absurd (cc e))
is_running_iff task_zombie = (λ e. absurd (cc e), λ e. absurd (cc e))

all_tests : (a b c : Bool) → (a && not b && c) ≡ true → (a ≡ true) × (b ≡ false) × (c ≡ true)
all_tests true false true e = (refl, refl, refl)
all_tests true false false e = absurd (cc e)
all_tests true true c e = absurd (cc e)
all_tests false b c e = absurd (cc e)

runnable-IsRunnable : (t : Task) → runnable t ≡ true → IsRunnable t
runnable-IsRunnable t e =
    let (ready, busy, awake) = all_tests (is_ready t.state) t.is_idle (t.sleep_until_tick == 0) e in
    ((is_ready_iff t.state).0 ready, busy, (==_iff t.sleep_until_tick 0).0 awake)

not-IsRunnable : (t : Task) → runnable t ≡ false → ¬ IsRunnable t
not-IsRunnable t off (ready, busy, awake) =
    absurd
      (cc (rw ((is_ready_iff t.state).1 ready, busy, (==_iff t.sleep_until_tick 0).1 awake) at off))

-- The table with a running task `cur` made ready.
abbrev pub Preempted : System → ℕ → (ℕ → Task) → Type 0
Preempted s cur list =
    ((j : ℕ) → j ≢ cur → list j ≡ s.task_list j)
    × ((((s.task_list cur).state ≡ task_running)
          × (list cur ≡ record (s.task_list cur) { state = task_ready }))
        ⊎ (((s.task_list cur).state ≢ task_running) × (list cur ≡ s.task_list cur)))

-- The first runnable slot behind `index`, around the table.
abbrev pub FirstRunnable : (ℕ → Task) → ℕ → ℕ → Option ℕ → Type 0
FirstRunnable list count index none = (j : ℕ) → j < count → ¬ IsRunnable (list j)
FirstRunnable list count index (some i) =
    (d : ℕ) × (d < count)
    × (i ≡ (suc index + d) % count)
    × IsRunnable (list i)
    × ((e : ℕ) → e < d → ¬ IsRunnable (list ((suc index + e) % count)))

-- Slot `i` runs next, under an index, and nothing else changes.
abbrev pub Runs : (ℕ → Task) → System → ℕ → ℕ → System → Type 0
Runs list s i index s' =
    (s'.task_next ≡ some i)
    × (s'.task_list ≡ put list i (record (list i) { state = task_running }))
    × (s'.task_current_index ≡ index)
    × (s'.task_current ≡ s.task_current)
    × (s'.idle_task ≡ s.idle_task)
    × (s'.task_count ≡ s.task_count)
    × (s'.heap ≡ s.heap)

-- Without a runnable slot: the idle task if it is ready, else the slot of the index again.
abbrev pub Idles : (ℕ → Task) → System → System → Type 0
Idles list s s' =
    ((i : ℕ) × (s.idle_task ≡ some i)
      × ((list i).state ≡ task_ready)
      × (((i < s.task_count) × Runs list s i i s')
          ⊎ ((s.task_count ≤ i) × Runs list s i s.task_current_index s')))
    ⊎ (((i : ℕ) → s.idle_task ≡ some i → (list i).state ≢ task_ready)
        × Runs list s s.task_current_index s.task_current_index s')

abbrev pub Outcome : (ℕ → Task) → System → Option ℕ → System → Type 0
Outcome list s none s' = Idles list s s'
Outcome list s (some i) s' = Runs list s i i s'

abbrev pub Chosen : System → ℕ → System → Type 0
Chosen s cur s' =
    (list : ℕ → Task) × Preempted s cur list
    × (o : Option ℕ) × FirstRunnable list s.task_count s.task_current_index o
    × Outcome list s o s'

-- From the state with the running task preempted.
module _ (t : System) (size : t.task_current_index < t.task_count) where
  First-FirstRunnable :
      (o : Option ℕ)
      → First t.task_list t.task_count (suc t.task_current_index) t.task_count o
      → FirstRunnable t.task_list t.task_count t.task_current_index o
  First-FirstRunnable none skips = λ j lt.
      let (d, small, e) = distance t.task_current_index j t.task_count size lt in
      not-IsRunnable (t.task_list j) (rw e (skips d small))
  First-FirstRunnable (some i) (d, small, here, on, before) = (
    d,
    small,
    here,
    runnable-IsRunnable (t.task_list i) on,
    λ e lt.
        not-IsRunnable (t.task_list ((suc t.task_current_index + e) % t.task_count)) (before e lt),
  )

  idle_or_stay-Idles : (p : Option ℕ) → t.idle_task ≡ p → Idles t.task_list t (idle_or_stay t p)
  idle_or_stay-Idles none e =
      inr (λ i q. absurd (cc (e, q)), (refl, refl, refl, refl, refl, refl, refl))
  idle_or_stay-Idles (some i) e = elim (Bool-cases (is_ready (t.task_list i).state)) [
    | inl on ↦ elim (Bool-cases (ltb i t.task_count)) [
      | inl inside ↦
          rw (on, inside)
            (inl (
              i,
              e,
              (is_ready_iff _).0 on,
              inl (ltb→lt i t.task_count inside, (refl, refl, refl, refl, refl, refl, refl)),
            ))
      | inr outside ↦
          rw (on, outside)
            (inl (
              i,
              e,
              (is_ready_iff _).0 on,
              inr (ltb→le i t.task_count outside, (refl, refl, refl, refl, refl, refl, refl)),
            ))
    ]
    | inr off ↦ rw off (
        inr (
          λ j q ready.
              let same : j ≡ i = some_value (sym q ∙ e) in
              absurd (
                cc (
                  off,
                  (is_ready_iff _).1 (subst (λ x. (t.task_list x).state ≡ task_ready) same ready),
                )),
          (refl, refl, refl, refl, refl, refl, refl),
        ))
  ]

  dispatch-Outcome : (o : Option ℕ) → Outcome t.task_list t o (dispatch t o)
  dispatch-Outcome none = idle_or_stay-Idles t.idle_task refl
  dispatch-Outcome (some i) = (refl, refl, refl, refl, refl, refl, refl)

  choose-Outcome :
      (o : Option ℕ) × FirstRunnable t.task_list t.task_count t.task_current_index o
      × Outcome t.task_list t o (choose t)
  unfolding choose
  choose-Outcome = (
    chosen t size,
    First-FirstRunnable (chosen t size) (chosen-First t size),
    dispatch-Outcome (chosen t size),
  )

preempt-Chosen :
    (s : System) (cur : ℕ)
    → s.task_current_index < s.task_count
    → Chosen s cur (choose (preempt s cur))
preempt-Chosen s cur size = elim (Bool-cases (is_running (s.task_list cur).state)) [
  | inl running ↦
      let ready : System = set_state s cur task_ready in
      let (o, first, out) = choose-Outcome ready size in
      rw running (
        ready.task_list,
        (
          λ j ne. rw (==_ne j cur ne) refl,
          inl ((is_running_iff _).0 running, rw ((==_iff cur cur).1 refl) refl),
        ),
        o,
        first,
        out,
      )
  | inr other ↦
      let (o, first, out) = choose-Outcome s size in
      rw other (
        s.task_list,
        (λ j ne. refl, inr (λ e. absurd (cc (other, (is_running_iff _).1 e)), refl)),
        o,
        first,
        out,
      )
]

-- With a current task and the index in the table, `schedule_next_task` makes the current task ready
-- if it was running. Of the table that results, it starts the first slot behind the index, around
-- the table, that is ready, not idle and not sleeping, with the index set to it; where there is
-- none, it starts the idle task if that is ready, with the index set to it if it is below the count
-- and as before otherwise; else the slot of the index runs on. The slot that is started is running
-- and next, no other slot changes, and neither do the current task, the idle task, the count and
-- the heap.
pub schedule-Chosen :
    (s : System) (cur : ℕ)
    → s.task_current ≡ some cur
    → s.task_current_index < s.task_count
    → Chosen s cur (schedule_next_task s)
schedule-Chosen s cur started size =
    subst (Chosen s cur) (sym (schedule_next_task-choose s cur started (omega (arith, size))))
      (preempt-Chosen s cur size)
