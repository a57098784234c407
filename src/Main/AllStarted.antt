-- ===== src/Main/AllStarted.antt =====
-- `main` with room in the heap for the stacks: all tasks are made, the idle task too.
use stm32_cli_os.Prelude.{
  ℕ, suc, ◌+◌, ◌-◌, ◌%◌, ◌<◌, ◌≤◌, ◌≡◌, refl, ap, subst, ◌∙◌, inl, inr, true, false, Bool-cases,
  Option, none, some, [], ◌∷◌, arith, u32, sub32, ◌==◌, ==_iff, ==_ne, put, ◌>>=◌,
}
use stm32_cli_os.Allocator.{Heap, null, allocator_init, align}
use stm32_cli_os.Allocator.Blocks.{free_block}
use stm32_cli_os.Allocator.Chain.{Represents}
use stm32_cli_os.Allocator.Init.{init-Represents}
use stm32_cli_os.Stm32Alloc.{stm32_allocator_init}
use stm32_cli_os.SystemClock.{Hardware}
use stm32_cli_os.Scheduler.{System, Task, task_ready, task_running, scheduler_init}
use stm32_cli_os.Scheduler.Create.{
  stack_bytes, task_create_idle, idle_created, idle_from, mark_idle, scheduler_start,
}
use stm32_cli_os.Scheduler.Roomy.{Roomy, Tabled, task_create-Succeeds}
use stm32_cli_os.Scheduler.Delete.{FirstTask, find_task-FirstTask}
use stm32_cli_os.Main.Boot.{Machine, Program, create, create_tasks, main}
use stm32_cli_os.Main.Booted.{IsLinked}

-- The four tasks at the start of the scheduler.
abbrev pub AllStarted : System → Type 0
AllStarted s =
    (s.task_count ≡ 4)
    × (s.task_current ≡ some 0)
    × (s.idle_task ≡ some 3)
    × ((s.task_list 0).state ≡ task_running)
    × ((i : ℕ) → 0 < i → i < 4 → (s.task_list i).state ≡ task_ready)
    × ((s.task_list 3).is_idle ≡ true)

found-last :
    (s : System) (r : Option ℕ)
    → Tabled s 4
    → FirstTask (λ t. t.task_id == 4) s.task_list s.task_count 0 r
    → r ≡ some 3
found-last s none (count, next, slots) first =
    let (ready, id) = slots 3 (omega arith) in
    absurd
      (cc (first 3 (omega arith) (omega (arith, count)), (==_iff (s.task_list 3).task_id 4).1 id))
found-last s (some r) (count, next, slots) (lo, hi, test, before) =
    let (ready, id) = slots r (omega (arith, hi, count)) in
    let named = (==_iff (s.task_list r).task_id 4).0 test in
    let e : r ≡ 3 = omega (arith, id, named) in ap some e

-- The system with the idle task marked.
abbrev marked : System → System
marked s = record s {
  idle_task = some 3;
  task_list = put s.task_list 3 (record (s.task_list 3) { is_idle = true });
}

mark_idle-marked : (s : System) → Tabled s 4 → mark_idle s 4 ≡ marked s
unfolding mark_idle
mark_idle-marked s t =
    let found =
      found-last s _ t
        (find_task-FirstTask s.task_count (λ (t : Task). t.task_id == 4) s.task_list 0) in
    rw (mark_idle, found) refl

-- The system that starts the first task.
abbrev first_running : System → System
first_running s = record s {
  task_list = put s.task_list 0 (record (s.task_list 0) { state = task_running });
  task_current_index = 0;
  task_current = some 0;
  task_next = some 0;
}

marked-AllStarted : (s : System) → Tabled s 4 → AllStarted (first_running (marked s))
marked-AllStarted s (count, next, slots) = (
  count,
  refl,
  refl,
  refl,
  λ i pos lt.
      let (ready, id) = slots i lt in
      elim (Bool-cases (i == 3)) [
        | inl last ↦
            let e = (==_iff i 3).0 last in
            let (ready', id') = slots 3 (omega arith) in
            rw (==_ne i 0 (omega (arith, pos)), last) ready'
        | inr early ↦ rw (==_ne i 0 (omega (arith, pos)), early) ready
      ],
  refl,
)

-- `main` reaches the start of the scheduler, with the four tasks.
abbrev pub Starts : Option Machine → Type 0
Starts r = (m' : Machine) × (r ≡ some m') × AllStarted m'.system

module _ (hw : Hardware) (p : Program) (linked : IsLinked p) where
  create-Succeeds :
      (func size n k : ℕ) (s : System)
      → func < u32
      → (func == null) ≡ false
      → size ≤ 8192
      → n < 58
      → stack_bytes size + 12 ≤ k
      → Tabled s n
      → Roomy s.heap k
      → (s' : System) × (create p.image func size s ≡ some s')
        × Tabled s' (suc n)
        × Roomy s'.heap (k - stack_bytes size - 8)
        × (s'.idle_task ≡ s.idle_task)
  create-Succeeds func size n k s f there small slots room t roomy =
      let (s', e, t', roomy', idle') =
        task_create-Succeeds p.image s func null size f (omega arith) linked.exit there small n k
          slots t roomy room in
      rw e (s', refl, t', roomy', idle')

  create_tasks-Succeeds :
      (k : ℕ) (s : System)
      → 4644 ≤ k
      → Tabled s 0
      → Roomy s.heap k
      → (s' : System) × (create_tasks p s ≡ some s')
        × Tabled s' 3
        × Roomy s'.heap (k - 1024 - 8 - 1024 - 8 - 2048 - 8)
        × (s'.idle_task ≡ s.idle_task)
  unfolding create_tasks
  create_tasks-Succeeds k s room t roomy =
      let (s₁, e₁, t₁, r₁, i₁) =
        create-Succeeds p.task_blink 1024 0 k s linked.blink linked.blink_there (omega arith)
          (omega arith) (omega (arith, room)) t roomy in
      let (s₂, e₂, t₂, r₂, i₂) =
        create-Succeeds p.task_button_logger 1024 1 (k - 1024 - 8) s₁ linked.button_logger
          linked.button_logger_there (omega arith) (omega arith) (omega (arith, room)) t₁ r₁ in
      let (s₃, e₃, t₃, r₃, i₃) =
        create-Succeeds p.cli_task_entry 2048 2 (k - 1024 - 8 - 1024 - 8) s₂ linked.cli
          linked.cli_there (omega arith) (omega arith) (omega (arith, room)) t₂ r₂ in
      let last : (create p.image p.cli_task_entry 2048 s₂ >>= λ t. some t) ≡ some s₃ =
        ap (λ r. r >>= λ t. some t) e₃ in
      let second = ap (λ r. r >>= λ t. create p.image p.cli_task_entry 2048 t >>= λ u. some u) e₂ in
      let first =
        ap
          (λ r. r >>= λ t. create p.image p.task_button_logger 1024 t >>= λ u.
            create p.image p.cli_task_entry 2048 u >>= λ v. some v)
          e₁ in
      (s₃, first ∙ (second ∙ last), t₃, r₃, i₃ ∙ (i₂ ∙ i₁))

  scheduler_start-AllStarted :
      (k : ℕ) (s : System)
      → 524 ≤ k
      → s.idle_task ≡ none
      → Tabled s 3
      → Roomy s.heap k
      → (s' : System) × (scheduler_start p.image s ≡ some s') × AllStarted s'
  unfolding scheduler_start task_create_idle
  scheduler_start-AllStarted k s room no_idle t roomy =
      let (s', e, t', roomy', idle') =
        task_create-Succeeds p.image s p.image.task_idle_function null 512 linked.idle (omega arith)
          linked.exit linked.idle_there (omega arith) 3 k (omega arith) t roomy room in
      let some_made : (s.task_count == 0) ≡ false = ==_ne s.task_count 0 (omega (arith, t.0)) in
      let idle : task_create_idle p.image s ≡ some (marked s') =
        ap (idle_from p.image s) no_idle ∙ (ap idle_created e ∙ ap some (mark_idle-marked s' t')) in
      rw (some_made, idle) (first_running (marked s'), refl, marked-AllStarted s' t')

  init-Roomy :
      (h : Heap)
      → p.end + 4655 ≤ p.heap_limit
      → h.allocated_mem ≡ 0
      → Roomy (allocator_init h p.end (sub32 p.heap_limit p.end)) (p.heap_limit - align p.end - 8)
  init-Roomy h room none_used =
      let start = linked.start in
      let top = linked.top in
      let size : sub32 p.heap_limit p.end ≡ p.heap_limit - p.end = omega (arith, room, top) in
      let back : p.end + (p.heap_limit - p.end) ≡ p.heap_limit = omega (arith, room) in
      let whole : (p.end + (p.heap_limit - p.end)) % 4 ≡ 0 = rw back (linked.whole) in
      let r =
        init-Represents h p.end (p.heap_limit - p.end) start (omega (arith, back, top))
          (omega (arith, room)) whole none_used in
      rw size (record {
        before = [];
        used = tt;
        heap =
            subst
              (λ n.
                Represents (allocator_init h p.end (p.heap_limit - p.end))
                  (free_block (n - align p.end - 8) ∷ []))
              back r;
      })

  -- For a linked program with at least 4655 bytes between `_end` and the limit of the heap, and
  -- with no bytes counted as used, `main` ends at the start of the scheduler with four tasks,
  -- whatever the hardware answers: task 0 is current and running, the tasks 1 to 3 are ready, and
  -- task 3 is the idle task, marked as such.
  pub main-Starts :
      (m : Machine)
      → p.end + 4655 ≤ p.heap_limit
      → m.system.heap.allocated_mem ≡ 0
      → Starts (main hw p m)
  unfolding main stm32_allocator_init scheduler_init
  main-Starts m room none_used =
      let heap : Heap = allocator_init m.system.heap p.end (sub32 p.heap_limit p.end) in
      let s₀ : System = scheduler_init (record (m.system) { heap = heap }) in
      let (start, top) : (0 < p.end) × (p.heap_limit < u32) = (linked.start, linked.top) in
      let k : ℕ = p.heap_limit - align p.end - 8 in
      let enough : 4644 ≤ k = omega (arith, room, top) in
      let empty : Tabled s₀ 0 = (refl, refl, λ i lt. absurd (omega (arith, lt))) in
      let (s, e, t, roomy, idle) =
        create_tasks-Succeeds k s₀ enough empty (init-Roomy m.system.heap room none_used) in
      let (s', e', all) =
        scheduler_start-AllStarted (k - 1024 - 8 - 1024 - 8 - 2048 - 8) s (omega (arith, enough))
          idle t roomy in
      rw (e, e') (_, refl, all)
