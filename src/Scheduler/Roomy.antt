-- ===== src/Scheduler/Roomy.antt =====
-- Creation with enough memory: on a heap whose used blocks lie in front of one free block,
-- `task_create` succeeds, and leaves such a heap.
use stm32_cli_os.Prelude.{
  ℕ, suc, ◌+◌, ◌-◌, ◌%◌, ◌<◌, ◌≤◌, ◌≡◌, ◌≢◌, refl, sym, ap, subst, ◌∙◌, inl, inr, false, Option,
  none, some, some_value, List, [], ◌∷◌, ◌++◌, append_assoc, arith, All, All-append, sum_of-append,
  u32, add32, leb, ltb, ◌==◌, ==_iff, ==_ne, le→leb, lt→leb, le→ltb, Bool-cases,
}
use stm32_cli_os.Allocator.{Heap, null, align, allocator_malloc}
use stm32_cli_os.Allocator.Blocks.{Block, used_block, free_block, extent, span, first_fit, fits}
use stm32_cli_os.Allocator.Chain.{Represents}
use stm32_cli_os.Allocator.Malloc.{request, Outcome, malloc_refines}
use stm32_cli_os.Allocator.Resize.Carve.{Represents-data}
use stm32_cli_os.Scheduler.{System, Task, task_ready, max_tasks, is_unused}
use stm32_cli_os.Scheduler.Create.{Image, stack_bytes, free_slot, place_task, task_create}
use stm32_cli_os.Scheduler.Created.{Made, placed-Made, stack_bytes-bounds}
use stm32_cli_os.Scheduler.Delete.{FirstTask, find_task-FirstTask}
use stm32_cli_os.Scheduler.Frame.{place-Framed}

-- The last block is free, with `k` bytes, and all before it are in use.
pub record Roomy (h : Heap) (k : ℕ) : Type 0 where
  pub before : List Block
  pub used : All (λ (b : Block). b.is_free ≡ false) before
  pub heap : Represents h (before ++ (free_block k ∷ []))

first_fit-Roomy :
    (n k : ℕ) (pre : List Block)
    → All (λ (b : Block). b.is_free ≡ false) pre
    → n + 12 ≤ k
    → first_fit n (pre ++ (free_block k ∷ []))
      ≡ some (span pre, pre ++ (used_block n ∷ free_block (k - n - 8) ∷ []))
unfolding first_fit
first_fit-Roomy n k [] used room =
    rw (le→leb n k (omega (arith, room)), le→leb (n + 12) k room) refl
first_fit-Roomy n k (b ∷ pre) (busy, used) room =
    let off : fits n b ≡ false = rw busy refl in rw (off, first_fit-Roomy n k pre used room) refl

module _ {h : Heap} {k : ℕ} (roomy : Roomy h k) where
  abbrev pre : List Block
  pre = roomy.before

  request-Roomy :
      (n : ℕ)
      → 0 < n
      → n % 4 ≡ 0
      → n + 12 ≤ k
      → n < 65536
      → request h (pre ++ (free_block k ∷ [])) n
        ≡ some (span pre, pre ++ (used_block n ∷ free_block (k - n - 8) ∷ []))
  request-Roomy n pos word room small =
      let whole : align n ≡ n = omega (arith, word, small) in
      let all : span (pre ++ (free_block k ∷ [])) ≡ span pre + (8 + k + 0) =
        sum_of-append extent pre (free_block k ∷ []) in
      let fits : ltb h.mem_capacity n ≡ false =
        le→ltb h.mem_capacity n (omega (arith, all, room, roomy.heap.capacity)) in
      rw (==_ne n 0 (omega (arith, pos)), fits, whole, first_fit-Roomy n k pre roomy.used room) refl

-- The table is full of ready tasks up to the count, with the ids from 1 on.
abbrev pub Tabled : System → ℕ → Type 0
Tabled s n =
    (s.task_count ≡ n)
    × (s.next_task_id ≡ n)
    × ((i : ℕ) → i < n → ((s.task_list i).state ≡ task_ready) × ((s.task_list i).task_id ≡ suc i))

-- No slot is left over: a new task takes the one behind the last.
found-count :
    (s : System) (n : ℕ) (r : Option ℕ)
    → Tabled s n
    → FirstTask (λ t. is_unused t.state) s.task_list s.task_count 0 r
    → r ≡ none
found-count s n none t first = refl
found-count s n (some r) (count, ids, ready) (lo, hi, unused, rest) =
    let (e, id) = ready r (omega (arith, hi, count)) in absurd (cc (rw e at unused))

free_slot-Tabled : (s : System) (n : ℕ) → Tabled s n → free_slot s ≡ n
free_slot-Tabled s n t =
    let none_left =
      found-count s n _ t
        (find_task-FirstTask s.task_count (λ (t : Task). is_unused t.state) s.task_list 0) in
    rw (free_slot, none_left) (t.0)

module _ (image : Image) (s : System) (func arg size : ℕ) (r : Option (Option ℕ × System)) where
  Made-Tabled :
      (n : ℕ) (m : Made image s func arg size r)
      → n < 58
      → m.id ≡ suc n
      → m.after.next_task_id ≡ suc n
      → Tabled s n
      → Tabled m.after (suc n)
  Made-Tabled n m small id next t =
      let slot = free_slot-Tabled s n t in
      let here = (==_iff n n).1 refl in
      let wrap : add32 n 1 ≡ suc n = omega (arith, small) in
      (
        m.count ∙ rw (slot, t.0, here) wrap,
        next,
        λ i lt. elim (Bool-cases (i == n)) [
          | inl last ↦
              let e : i ≡ free_slot s = (==_iff i n).0 last ∙ sym slot in
              let named : suc n ≡ suc i = ap suc (sym ((==_iff i n).0 last)) in
              (
                ap (λ j. (m.after.task_list j).state) e ∙ m.ready,
                ap (λ j. (m.after.task_list j).task_id) e ∙ (m.name ∙ (id ∙ named)),
              )
          | inr early ↦
              let ne : i ≢ n = λ e. absurd (cc (early, (==_iff i n).1 e)) in
              let other : i ≢ free_slot s = λ e. ne (e ∙ slot) in
              rw (m.others i other) (t.2 i (omega (arith, lt, ne)))
        ],
      )

abbrev pub Succeeds : Image → System → ℕ → ℕ → ℕ → ℕ → ℕ → Type 0
Succeeds image s func arg size n k =
    (s' : System) × (task_create image s func arg size ≡ some (some (suc n), s'))
    × Tabled s' (suc n)
    × Roomy s'.heap (k - stack_bytes size - 8)
    × (s'.idle_task ≡ s.idle_task)

module _ (image : Image) (s : System) (func arg size : ℕ) (f : func < u32) (a : arg < u32)
    (x : image.task_exit < u32) (there : (func == null) ≡ false) (small : size ≤ 8192) where
  placed-heap :
      (base : ℕ) (h : Heap) (pre post : List Block)
      → Represents h (pre ++ (used_block (stack_bytes size) ∷ post))
      → base ≡ h.head + span pre + 8
      → base % 4 ≡ 0
      → base + stack_bytes size < u32
      → let s' = (place_task image (record s { heap = h }) func arg (stack_bytes size) base).1 in
        Represents s'.heap (pre ++ (used_block (stack_bytes size) ∷ post))
  unfolding place_task
  placed-heap base h pre post r here word top =
      let (low, asked, high, whole) = stack_bytes-bounds size small in
      let framed =
        place-Framed image (record s { heap = h }) func arg (stack_bytes size) base f a x word whole
          low top in
      Represents-data h pre (used_block (stack_bytes size)) post _ r
        λ p o. framed.outside p (omega (arith, o, here))

  placed-id :
      (base : ℕ) (h : Heap) (n : ℕ)
      → n < 58
      → s.next_task_id ≡ n
      → (place_task image (record s { heap = h }) func arg (stack_bytes size) base).0 ≡ suc n
  unfolding place_task
  placed-id base h n slots next = omega (arith, slots, next)

  placed-next :
      (base : ℕ) (h : Heap)
      → let (id, s') = place_task image (record s { heap = h }) func arg (stack_bytes size) base in
        s'.next_task_id ≡ id
  unfolding place_task
  placed-next base h = refl

  placed-idle :
      (base : ℕ) (h : Heap)
      → (place_task image (record s { heap = h }) func arg (stack_bytes size) base).1.idle_task
        ≡ s.idle_task
  unfolding place_task
  placed-idle base h = refl

  module _ (n k : ℕ) (slots : n < 58) (t : Tabled s n) (roomy : Roomy s.heap k) where
    abbrev rest : List Block
    rest = free_block (k - stack_bytes size - 8) ∷ []

    -- With the block that `malloc` returned.
    placed-Succeeds :
        (p : ℕ) (h : Heap)
        → allocator_malloc s.heap (stack_bytes size) ≡ some (p, h)
        → Represents h (roomy.before ++ (used_block (stack_bytes size) ∷ rest))
        → p ≡ h.head + span roomy.before + 8
        → p % 4 ≡ 0
        → Succeeds image s func arg size n k
    unfolding task_create
    placed-Succeeds p h call r address word =
        let after = place_task image (record s { heap = h }) func arg (stack_bytes size) p in
        let all : span (roomy.before ++ (used_block (stack_bytes size) ∷ rest))
            ≡ span roomy.before + span (used_block (stack_bytes size) ∷ rest) =
          sum_of-append extent roomy.before (used_block (stack_bytes size) ∷ rest) in
        let top : p + stack_bytes size < u32 =
          omega (arith, all, address, r.capacity, r.in_memory) in
        let live : (p == null) ≡ false = ==_ne p null (omega (arith, address)) in
        let open_table : leb max_tasks s.task_count ≡ false =
          lt→leb max_tasks s.task_count (omega (arith, t.0, slots)) in
        let m =
          placed-Made image s func arg size f a x roomy.heap p h roomy.before rest
            (stack_bytes size) call r address word (omega arith) top small in
        let same : after.1 ≡ m.after = ap (λ (q : Option ℕ × System). q.1) (some_value m.ends) in
        let id : after.0 ≡ suc n = placed-id p h n slots t.1 in
        let named : m.id ≡ suc n =
          sym (some_value (ap (λ (q : Option ℕ × System). q.0) (some_value m.ends))) ∙ id in
        let next : m.after.next_task_id ≡ suc n =
          ap (λ (q : System). q.next_task_id) (sym same) ∙ (placed-next p h ∙ id) in
        rw (open_table, there, le→ltb 8192 size small, call, live)
          (
            after.1,
            ap (λ i. some (some i, after.1)) id,
            subst (λ s'. Tabled s' (suc n)) (sym same)
                (Made-Tabled image s func arg size _ n m slots named next t),
            record {
              before = roomy.before ++ (used_block (stack_bytes size) ∷ []);
              used =
                  All-append (λ (b : Block). b.is_free ≡ false) roomy.before
                    (used_block (stack_bytes size) ∷ []) roomy.used (refl, tt);
              heap =
                  rw (append_assoc roomy.before (used_block (stack_bytes size) ∷ []) rest)
                    (placed-heap p h roomy.before rest r address word top);
            },
            placed-idle p h,
          )

    -- With a ready task in each slot up to the count, room in the table, and room for the stack in
    -- the last block.
    pub task_create-Succeeds : stack_bytes size + 12 ≤ k → Succeeds image s func arg size n k
    task_create-Succeeds room =
        let (low, asked, high, whole) = stack_bytes-bounds size small in
        let found =
          request-Roomy roomy (stack_bytes size) (omega (arith, low)) (omega (arith, whole)) room
            (omega (arith, high)) in
        let (p, h, call, al) =
          subst (Outcome roomy.heap (stack_bytes size)) found
            (malloc_refines roomy.heap (stack_bytes size)) in
        placed-Succeeds p h call al.after (omega (arith, al.address, al.same_head)) al.word
