-- ===== src/Scheduler/Created.antt =====
-- `task_create` of core/scheduler.c as a whole, on a heap that represents a list of blocks.
use stm32_cli_os.Prelude.{
  ◌↔◌, ℕ, ◌+◌, ◌%◌, ◌<◌, ◌≤◌, ◌≡◌, ◌≢◌, refl, ap, subst, ◌∙◌, ◌⊎◌, inl, inr, true, false, ◌||◌,
  Option, none, some, List, ◌∷◌, ◌++◌, arith, u32, add32, if◌then◌else◌, leb, ltb, ◌==◌, ==_iff,
  ==_ne, leb→le, ltb→lt, ltb→le, Bool-cases, Option-cases,
}
use stm32_cli_os.Allocator.{Heap, null, align, allocator_malloc}
use stm32_cli_os.Allocator.Blocks.{Block, used_block, span}
use stm32_cli_os.Allocator.Chain.{Represents}
use stm32_cli_os.Allocator.Malloc.{request, Outcome, malloc_refines}
use stm32_cli_os.Allocator.Resize.Carve.{carve-Carved, Represents-data}
use stm32_cli_os.Scheduler.{
  System, Task, TaskState, task_unused, task_ready, task_running, task_blocked, task_zombie,
  is_unused, max_tasks,
}
use stm32_cli_os.Scheduler.Delete.{FirstTask, find_task-FirstTask}
use stm32_cli_os.Scheduler.Create.{Image, stack_bytes, free_slot, place_task, task_create}
use stm32_cli_os.Scheduler.Frame.{Framed, place-Framed}

-- The size of a stack: whole 8-byte units, at least 512 bytes and at least what was asked for.
pub stack_bytes-bounds :
    (size : ℕ)
    → size ≤ 8192
    → (512 ≤ stack_bytes size)
      × (size ≤ stack_bytes size)
      × (stack_bytes size ≤ 8192)
      × (stack_bytes size % 8 ≡ 0)
stack_bytes-bounds size h = ground (arith, h)

-- The first slot that holds no task: below the count, or the one behind the last where all slots
-- below the count hold one.
abbrev pub FirstFree : System → ℕ → Type 0
FirstFree s i =
    (((i < s.task_count) × ((s.task_list i).state ≡ task_unused)) ⊎ (i ≡ s.task_count))
    × ((j : ℕ) → j < i → (s.task_list j).state ≢ task_unused)

is_unused_iff : (st : TaskState) → (is_unused st ≡ true) ↔ (st ≡ task_unused)
is_unused_iff task_unused = (λ e. refl, λ e. refl)
is_unused_iff task_ready = (λ e. absurd (cc e), λ e. absurd (cc e))
is_unused_iff task_running = (λ e. absurd (cc e), λ e. absurd (cc e))
is_unused_iff task_blocked = (λ e. absurd (cc e), λ e. absurd (cc e))
is_unused_iff task_zombie = (λ e. absurd (cc e), λ e. absurd (cc e))

-- The outcome of the search for an unused slot.
slot_of-FirstFree :
    (s : System) (r : Option ℕ)
    → FirstTask (λ t. is_unused t.state) s.task_list s.task_count 0 r
    → FirstFree s (elim r [ none ↦ s.task_count | some i ↦ i ])
slot_of-FirstFree s none full = (
  inr refl,
  λ j lt e. absurd (cc (full j (omega arith) (omega (arith, lt)), (is_unused_iff _).1 e)),
)
slot_of-FirstFree s (some i) (lo, hi, unused, before) = (
  inl (omega (arith, hi), (is_unused_iff _).0 unused),
  λ j lt e. absurd (cc (before j (omega arith) lt, (is_unused_iff _).1 e)),
)

free_slot-FirstFree : (s : System) → FirstFree s (free_slot s)
free_slot-FirstFree s =
    slot_of-FirstFree s _
      (find_task-FirstTask s.task_count (λ (t : Task). is_unused t.state) s.task_list 0)

-- A task was made: it has a slot of its own, and its stack is a block in use, with its first frame.
pub record Made (image : Image) (s : System) (func arg size : ℕ)
    (result : Option (Option ℕ × System)) : Type 0 where
  pub id : ℕ
  pub after : System
  pub ends : result ≡ some (some id, after)
  pub base : ℕ
  pub pre : List Block
  pub post : List Block
  pub block : ℕ
  pub heap : Represents after.heap (pre ++ (used_block block ∷ post))
  pub address : base ≡ after.heap.head + span pre + 8
  pub enough : size ≤ block
  pub allocated :
      (h : Heap) × (allocator_malloc s.heap (stack_bytes size) ≡ some (base, h))
      × Framed image
          (record s { heap = h })
          func
          arg
          (stack_bytes size)
          base
          after
          ((after.task_list (free_slot s)).psp)
  pub first : FirstFree s (free_slot s)
  pub ready : (after.task_list (free_slot s)).state ≡ task_ready
  pub stack : (after.task_list (free_slot s)).stack_ptr ≡ base
  pub name : (after.task_list (free_slot s)).task_id ≡ id
  pub count :
      after.task_count
      ≡ (if free_slot s == s.task_count then add32 s.task_count 1 else s.task_count)
  pub others : (i : ℕ) → i ≢ free_slot s → after.task_list i ≡ s.task_list i

-- The outcomes of a call: refused, no memory, or made.
abbrev pub Created : Image → System → ℕ → ℕ → ℕ → Option (Option ℕ × System) → Type 0
Created image s func arg size result =
    ((result ≡ some (none, s))
      × ((58 ≤ s.task_count)
          ⊎ (func ≡ null)
          ⊎ (8192 < size)
          ⊎ (allocator_malloc s.heap (stack_bytes size) ≡ some (null, s.heap))))
    ⊎ Made image s func arg size result

module _ (image : Image) (s : System) (func arg size : ℕ) (f : func < u32) (a : arg < u32)
    (x : image.task_exit < u32) {bs : List Block} (r : Represents s.heap bs) where
  -- With a block for the stack.
  pub placed-Made :
      (base : ℕ) (h : Heap) (pre post : List Block) (n : ℕ)
      → allocator_malloc s.heap (stack_bytes size) ≡ some (base, h)
      → Represents h (pre ++ (used_block n ∷ post))
      → base ≡ h.head + span pre + 8
      → base % 4 ≡ 0
      → stack_bytes size ≤ n
      → base + n < u32
      → size ≤ 8192
      → let (id, s') = place_task image (record s { heap = h }) func arg (stack_bytes size) base in
        Made image s func arg size (some (some id, s'))
  unfolding place_task
  placed-Made base h pre post n call r' here word room top small =
      let (low, asked, high, whole) = stack_bytes-bounds size small in
      let made = place_task image (record s { heap = h }) func arg (stack_bytes size) base in
      let self = (==_iff (free_slot s) (free_slot s)).1 refl in
      let framed =
        place-Framed image (record s { heap = h }) func arg (stack_bytes size) base f a x word whole
          low (omega (arith, top, room)) in
      record {
        id = made.0;
        after = made.1;
        ends = refl;
        base = base;
        pre = pre;
        post = post;
        block = n;
        heap =
            Represents-data h pre (used_block n) post _ r'
              λ p o. framed.outside p (omega (arith, o, here, room));
        address = here;
        enough = omega (arith, asked, room);
        allocated = (h, call, framed);
        first = free_slot-FirstFree s;
        ready = rw self refl;
        stack = rw self refl;
        name = rw self refl;
        count = refl;
        others = λ i ne. rw (==_ne i (free_slot s) ne) refl;
      }

  -- Behind the tests on the arguments.
  allocating-Created :
      size ≤ 8192
      → (leb max_tasks s.task_count || func == null) ≡ false
      → ltb 8192 size ≡ false
      → Created image s func arg size (task_create image s func arg size)
  unfolding task_create
  allocating-Created small open_call fits =
      let (low, asked, high, whole) = stack_bytes-bounds size small in
      elim (Option-cases (request s.heap bs (stack_bytes size))) [
        | inl nothing ↦
            let call =
              subst (Outcome r (stack_bytes size)) nothing (malloc_refines r (stack_bytes size)) in
            rw (open_call, fits, call) (inl (refl, inr (inr (inr refl))))
        | inr ((off, bs'), found) ↦
            let (p, h, call, al) =
              subst (Outcome r (stack_bytes size)) found (malloc_refines r (stack_bytes size)) in
            let live : (p == null) ≡ false = ==_ne p null (omega (arith, al.address)) in
            let c = carve-Carved (align (stack_bytes size)) al.size al.enough in
            let blocks = al.result ∙ ap (λ l. al.pre ++ (l ++ al.post)) c.blocks in
            rw (open_call, fits, call, live)
              (inr (
                placed-Made p h al.pre (c.rest ++ al.post) c.size call
                  (subst (Represents h) blocks al.after)
                  (omega (arith, al.address, al.offset, al.same_head)) al.word
                  (omega (arith, c.enough, low, high))
                  (omega (arith, al.inside, r.in_memory, c.within)) small))
      ]

  -- For code addresses and an argument that are words, on a heap that represents a list of blocks,
  -- `task_create` ends: it refuses and changes nothing only where the table has 58 tasks, the
  -- function is `NULL`, the size exceeds 8192 or `malloc` returned `NULL`; otherwise the task is
  -- ready under the returned id in the first unused slot below the count, or behind the last where
  -- there is none, its stack is a block in use that holds the requested size and its first frame,
  -- every other slot stays, and the count is one higher where the slot lay behind the last.
  pub create-Created : Created image s func arg size (task_create image s func arg size)
  unfolding task_create
  create-Created = elim (Bool-cases (leb max_tasks s.task_count)) [
    | inl full ↦ rw full (inl (refl, inl (leb→le _ _ full)))
    | inr room ↦ elim (Bool-cases (func == null)) [
      | inl no_func ↦ rw (room, no_func) (inl (refl, inr (inl ((==_iff func null).0 no_func))))
      | inr real ↦ elim (Bool-cases (ltb 8192 size)) [
        | inl big ↦ rw (room, real, big) (inl (refl, inr (inr (inl (ltb→lt _ _ big)))))
        | inr fits ↦ allocating-Created (ltb→le _ _ fits) (rw (room, real) refl) fits
      ]
    ]
  ]
