-- ===== src/Main/Booted.antt =====
-- Where `main` arrives: at the start of the scheduler, on any outcome of its calls.
use stm32_cli_os.Prelude.{
  ℕ, ◌+◌, ◌-◌, ◌%◌, ◌<◌, ◌≤◌, ◌≡◌, refl, sym, ◌⊎◌, inl, inr, true, false, Option, none, some, List,
  arith, u32, sub32, Bool-cases, Option-cases, subst, ◌==◌, ==_iff, ◌>>=◌,
}
use stm32_cli_os.Allocator.{Heap, null, allocator_init}
use stm32_cli_os.Allocator.Blocks.{Block}
use stm32_cli_os.Allocator.Chain.{Represents}
use stm32_cli_os.Allocator.Init.{init-Represents}
use stm32_cli_os.Stm32Alloc.{stm32_allocator_init}
use stm32_cli_os.SystemClock.{
  Clock, Hardware, ClockResult, clock_ok, clock_err_unsupported, clock_err_timeout,
  system_clock_config_hz, get_system_clock_hz,
}
use stm32_cli_os.SystemClock.Configured.{Configured, config_hz-Configured}
use stm32_cli_os.Systick.{SystickRegisters, systick_init}
use stm32_cli_os.Registers.{has_bit, set_bit}
use stm32_cli_os.Scheduler.{System, Task, task_running, scheduler_init, find_task}
use stm32_cli_os.Scheduler.Create.{
  Image, task_create, task_create_idle, idle_created, idle_from, mark_idle, scheduler_start,
}
use stm32_cli_os.Scheduler.Created.{Created, create-Created}
use stm32_cli_os.AppCommands.Register.{AllRun, start_cli-AllRun}
use stm32_cli_os.Main.Boot.{or_before, Machine, Program, create, create_tasks, main}

-- A heap that is in order.
abbrev pub InOrder : Heap → Type 0
InOrder h = (bs : List Block) × Represents h bs

abbrev Ends : Option System → Type 0
Ends r = (s' : System) × (r ≡ some s') × InOrder s'.heap

-- The result of `task_create`, by what `main` and `task_create_idle` use of it.
Created-Ends :
    (image : Image) (s : System) (func arg size : ℕ) (r : Option (Option ℕ × System))
    → InOrder s.heap
    → Created image s func arg size r
    → (id : Option ℕ) × (s' : System) × (r ≡ some (id, s')) × InOrder s'.heap
Created-Ends image s func arg size r h (inl (e, why)) = (none, s, e, h)
Created-Ends image s func arg size r h (inr made) =
    (some made.id, made.after, made.ends, (_, made.heap))

module _ (image : Image) (exit : image.task_exit < u32) where
  task_create-Ends :
      (func size : ℕ) (s : System)
      → func < u32
      → InOrder s.heap
      → (id : Option ℕ) × (s' : System) × (task_create image s func null size ≡ some (id, s'))
        × InOrder s'.heap
  task_create-Ends func size s f (bs, r) =
      Created-Ends image s func null size _ (bs, r)
        (create-Created image s func null size f (omega arith) exit r)

  create-Ends :
      (func size : ℕ) (s : System) → func < u32 → InOrder s.heap → Ends (create image func size s)
  create-Ends func size s f h =
      let (id, s', e, h') = task_create-Ends func size s f h in rw e (s', refl, h')

mark_idle-heap : (s : System) (id : ℕ) → (mark_idle s id).heap ≡ s.heap
unfolding mark_idle
mark_idle-heap s id =
    elim (Option-cases (find_task (λ (t : Task). t.task_id == id) s.task_list s.task_count 0)) [
      | inl missing ↦ rw (mark_idle, missing) refl
      | inr (i, found) ↦ rw (mark_idle, found) refl
    ]

-- No task was made, or the first one runs.
abbrev pub RunsFirst : System → Type 0
RunsFirst s =
    (s.task_count ≡ 0) ⊎ ((s.task_current ≡ some 0) × ((s.task_list 0).state ≡ task_running))

abbrev pub Started : Option System → Type 0
Started r = (s' : System) × (r ≡ some s') × InOrder s'.heap × RunsFirst s'

module _ (image : Image) (exit : image.task_exit < u32)
    (idle : image.task_idle_function < u32) where
  idle_created-Ends :
      (id : Option ℕ) (s : System) → InOrder s.heap → Ends (idle_created (some (id, s)))
  idle_created-Ends none s h = (s, refl, h)
  idle_created-Ends (some n) s h = (mark_idle s n, refl, subst InOrder (sym (mark_idle-heap s n)) h)

  idle_from-Ends : (s : System) (known : Option ℕ) → InOrder s.heap → Ends (idle_from image s known)
  idle_from-Ends s (some i) h = (s, refl, h)
  idle_from-Ends s none h =
      let (id, s', made, h') = task_create-Ends image exit image.task_idle_function 512 s idle h in
      subst (λ r. Ends (idle_created r)) (sym made) (idle_created-Ends id s' h')

  scheduler_start-Started : (s : System) → InOrder s.heap → Started (scheduler_start image s)
  unfolding scheduler_start task_create_idle
  scheduler_start-Started s h = elim (Bool-cases (s.task_count == 0)) [
    | inl none_made ↦ rw none_made (s, refl, h, inl ((==_iff s.task_count 0).0 none_made))
    | inr some_made ↦
        let (s', e, h') = idle_from-Ends s s.idle_task h in
        rw (some_made, e) (_, refl, h', inr (refl, refl))
  ]

-- The addresses as a linked program has them: all are words, the functions are there, and the heap
-- has room for a header between `_end` and a word-aligned limit.
pub record IsLinked (p : Program) : Type 0 where
  pub exit : p.image.task_exit < u32
  pub idle : p.image.task_idle_function < u32
  pub blink : p.task_blink < u32
  pub button_logger : p.task_button_logger < u32
  pub cli : p.cli_task_entry < u32
  pub idle_there : (p.image.task_idle_function == null) ≡ false
  pub blink_there : (p.task_blink == null) ≡ false
  pub button_logger_there : (p.task_button_logger == null) ≡ false
  pub cli_there : (p.cli_task_entry == null) ≡ false
  pub help : (p.commands.help == 0) ≡ false
  pub heap_stats : (p.commands.heap_stats == 0) ≡ false
  pub task_list : (p.commands.task_list == 0) ≡ false
  pub uptime : (p.commands.uptime == 0) ≡ false
  pub kill : (p.commands.kill == 0) ≡ false
  pub reboot : (p.commands.reboot == 0) ≡ false
  pub heap_test : (p.commands.heap_test == 0) ≡ false
  pub start : 0 < p.end
  pub room : p.end + 11 ≤ p.heap_limit
  pub top : p.heap_limit < u32
  pub whole : p.heap_limit % 4 ≡ 0

-- The timer runs at 1 kHz on the recorded clock: 80 MHz, or 4 MHz where a wait timed out.
abbrev pub Timed : ClockResult × Clock → SystickRegisters → Type 0
Timed (clock_ok, c) t = (get_system_clock_hz c ≡ 80000000) × (t.csr ≡ 7) × (t.rvr ≡ 79999)
Timed (clock_err_unsupported, c) t = ⊥
Timed (clock_err_timeout, c) t = (get_system_clock_hz c ≡ 4000000) × (t.csr ≡ 7) × (t.rvr ≡ 3999)

abbrev pub Booted : Hardware → Program → Machine → Option Machine → Type 0
Booted hw p m r =
    (m' : Machine) × (r ≡ some m')
    × Timed (system_clock_config_hz hw m.clock 80000000) m'.systick
    × (has_bit m'.nvic_iser1 6 ≡ true)
    × InOrder m'.system.heap
    × RunsFirst m'.system
    × AllRun p.commands m'.cli
    × (m'.basepri ≡ m.basepri)

set_bit-has_bit : (reg : ℕ) → has_bit (set_bit reg 6) 6 ≡ true
set_bit-has_bit reg = ground arith

Configured-Timed :
    (c : Clock) (before : SystickRegisters) (r : ClockResult × Clock)
    → c.system_clock_val_hz ≡ 4000000
    → Configured c 80000000 r
    → Timed r (or_before before (systick_init (get_system_clock_hz r.1) 1000))
unfolding systick_init
Configured-Timed c before (clock_ok, d) at_reset (source, hz, safe) = rw hz (refl, refl, refl)
Configured-Timed c before (clock_err_unsupported, d) at_reset (other, source, hz) =
    absurd (cc other)
Configured-Timed c before (clock_err_timeout, d) at_reset (inl same) =
    rw (same, at_reset) (refl, refl, refl)
Configured-Timed c before (clock_err_timeout, d) at_reset (inr hz) = rw hz (refl, refl, refl)

module _ (hw : Hardware) (p : Program) (linked : IsLinked p) where
  create_tasks-Ends : (s : System) → InOrder s.heap → Ends (create_tasks p s)
  unfolding create_tasks
  create_tasks-Ends s h =
      let (s₁, e₁, h₁) = create-Ends p.image linked.exit p.task_blink 1024 s linked.blink h in
      let (s₂, e₂, h₂) =
        create-Ends p.image linked.exit p.task_button_logger 1024 s₁ linked.button_logger h₁ in
      let (s₃, e₃, h₃) = create-Ends p.image linked.exit p.cli_task_entry 2048 s₂ linked.cli h₂ in
      subst
        (λ r. Ends (
          r >>= λ t₁. create p.image p.task_button_logger 1024 t₁ >>= λ t₂.
          create p.image p.cli_task_entry 2048 t₂ >>= λ t₃. some t₃))
        (sym e₁)
        (subst (λ r. Ends (r >>= λ t₂. create p.image p.cli_task_entry 2048 t₂ >>= λ t₃. some t₃))
          (sym e₂) (subst (λ r. Ends (r >>= λ t₃. some t₃)) (sym e₃) (s₃, refl, h₃)))

  set_heap-InOrder :
      (h : Heap) → h.allocated_mem ≡ 0 → InOrder (allocator_init h p.end (sub32 p.heap_limit p.end))
  set_heap-InOrder h none_used =
      let (start, room, top, whole) : (0 < p.end)
          × (p.end + 11 ≤ p.heap_limit)
          × (p.heap_limit < u32)
          × (p.heap_limit % 4 ≡ 0) =
        (linked.start, linked.room, linked.top, linked.whole) in
      let size : sub32 p.heap_limit p.end ≡ p.heap_limit - p.end = omega (arith, room, top) in
      let back : p.end + (p.heap_limit - p.end) ≡ p.heap_limit = omega (arith, room) in
      let e : (p.end + (p.heap_limit - p.end)) % 4 ≡ 0 = rw back whole in
      subst (λ n. InOrder (allocator_init h p.end n)) (sym size)
        (
          _,
          init-Represents h p.end (p.heap_limit - p.end) start (omega (arith, back, top))
              (omega (arith, room)) e none_used,
        )

  -- For a linked program, whatever the hardware answers, `main` ends at the start of the scheduler,
  -- from a recorded clock of 4 MHz and no bytes counted as used: the timer is set to 1 kHz on a
  -- recorded clock of 80 MHz, or of 4 MHz where a wait timed out; the interrupt of USART2 is
  -- enabled in the NVIC; the heap represents a list of blocks; either no task was made or task 0 is
  -- current and running; the seven commands are found with their handlers; `BASEPRI` is as before.
  pub main-Booted :
      (m : Machine)
      → m.system.heap.allocated_mem ≡ 0
      → m.clock.system_clock_val_hz ≡ 4000000
      → Booted hw p m (main hw p m)
  unfolding main stm32_allocator_init scheduler_init
  main-Booted m none_used at_reset =
      let heap : Heap = allocator_init m.system.heap p.end (sub32 p.heap_limit p.end) in
      let s₀ : System = scheduler_init (record (m.system) { heap = heap }) in
      let (s, e, h) = create_tasks-Ends s₀ (set_heap-InOrder m.system.heap none_used) in
      let (s', e', h', first) = scheduler_start-Started p.image linked.exit linked.idle s h in
      let commands =
        start_cli-AllRun p.commands linked.help linked.heap_stats linked.task_list linked.uptime
          linked.kill linked.reboot linked.heap_test _ _ _ in
      rw (e, e')
        (
          _,
          refl,
          Configured-Timed m.clock m.systick _ at_reset (config_hz-Configured hw m.clock 80000000),
          set_bit-has_bit m.nvic_iser1,
          h',
          first,
          commands,
          refl,
        )
