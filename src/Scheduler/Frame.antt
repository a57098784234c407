-- ===== src/Scheduler/Frame.antt =====
-- The first stack frame of a task: where `initialize_stack` writes, and what it leaves there.
use stm32_cli_os.Prelude.{
  ℕ, suc, ◌+◌, ◌-◌, ◌*◌, ◌%◌, ◌<◌, ◌≤◌, ◌≡◌, refl, ap, ap₂, ==_iff, ◌∙◌, ◌⊎◌, inr, List, [], ◌∷◌,
  ◌++◌, arith, length, sub32, add32, u32,
}
use stm32_cli_os.Memory.{
  Mem, load32, store32, store32-ne, load32-store32_self, load32-store32_ne, load32-Agree, Agree,
}
use stm32_cli_os.Scheduler.{System, stack_canary}
use stm32_cli_os.Scheduler.Create.{
  Image, push_words, first_frame, initialize_stack, place_task, free_slot,
}

-- The words go below each other, from `top` down.
push_words_outside :
    (ws : List ℕ) (m : Mem) (top p : ℕ)
    → 4 * length ws ≤ top
    → top + 4 ≤ u32
    → (p + 4 * length ws < top + 4) ⊎ (top + 4 ≤ p)
    → push_words m top ws p ≡ m p
push_words_outside [] m top p room range o = refl
push_words_outside (w ∷ ws) m top p room range o =
    let e : sub32 top 4 ≡ top - 4 = omega (arith, room, range) in
    rw e (
      push_words_outside ws (store32 m top w) (top - 4) p (omega (arith, room))
        (omega (arith, range)) (omega (arith, o, room))
      ∙ store32-ne m top w p (omega (arith, o)))

push_words_word :
    (pre : List ℕ) (w : ℕ) (post : List ℕ) (m : Mem) (top : ℕ)
    → w < u32
    → 4 * length (pre ++ (w ∷ post)) ≤ top
    → top + 4 ≤ u32
    → load32 (push_words m top (pre ++ (w ∷ post))) (top - 4 * length pre) ≡ w
push_words_word [] w post m top small room range =
    let m' = store32 m top w in
    let e : sub32 top 4 ≡ top - 4 = omega (arith, room, range) in
    let z : top - 4 * 0 ≡ top = omega arith in
    let same : Agree m' (push_words m' (top - 4) post) top (top + 4) = λ p lo hi.
      push_words_outside post m' (top - 4) p (omega (arith, room)) (omega (arith, range))
        (omega (arith, lo, room)) in
    ap₂ (λ t a. load32 (push_words m' t post) a) e z
    ∙ load32-Agree m' (push_words m' (top - 4) post) top top (top + 4) same (omega arith)
        (omega arith)
    ∙ load32-store32_self m top w small
push_words_word (v ∷ pre) w post m top small room range =
    let m' = store32 m top v in
    let e : sub32 top 4 ≡ top - 4 = omega (arith, room, range) in
    let z : top - 4 * suc (length pre) ≡ top - 4 - 4 * length pre = omega arith in
    ap₂ (λ t a. load32 (push_words m' t (pre ++ (w ∷ post))) a) e z
    ∙ push_words_word pre w post m' (top - 4) small (omega (arith, room)) (omega (arith, range))

-- A task whose stack lies in the `size` bytes from `base` on, in the memory `m'`.
pub record Framed (image : Image) (s : System) (func arg size base : ℕ) (s' : System) (psp : ℕ)
    : Type 0 where
  pub outside : (p : ℕ) → (p < base) ⊎ (base + size ≤ p) → s'.heap.mem p ≡ s.heap.mem p
  pub canary : load32 s'.heap.mem base ≡ stack_canary
  pub above : base + 4 ≤ psp
  pub within : psp + 64 ≤ base + size
  pub misaligned : psp % 8 ≡ 4
  pub entry : load32 s'.heap.mem (psp + 56) ≡ func
  pub return : load32 s'.heap.mem (psp + 52) ≡ image.task_exit
  pub argument : load32 s'.heap.mem (psp + 32) ≡ arg

module _ (image : Image) (s : System) (func arg size base : ℕ) (f : func < u32) (a : arg < u32)
    (x : image.task_exit < u32) (aligned : base % 4 ≡ 0) (whole : size % 8 ≡ 0) (room : 512 ≤ size)
    (top : base + size < u32) where
  abbrev pub placed : System
  placed = (place_task image s func arg size base).1

  -- The aligned top of the stack, and the memory after the pushes.
  abbrev stack_top : ℕ
  stack_top = sub32 (add32 base size) 4 - sub32 (add32 base size) 4 % 8

  abbrev pushed : Mem
  pushed = push_words s.heap.mem stack_top (first_frame image.task_exit func arg)

  stack_top-bounds :
      (base + 512 ≤ stack_top + 12) × (stack_top + 4 ≤ base + size) × (stack_top % 8 ≡ 0)
  stack_top-bounds =
      let e : sub32 (add32 base size) 4 ≡ base + size - 4 = omega (arith, top, room) in
      (omega (arith, e, room), omega (arith, e, room), omega arith)

  placed-mem : placed.heap.mem ≡ store32 pushed base stack_canary
  unfolding place_task initialize_stack
  placed-mem = refl

  placed-psp : (placed.task_list (free_slot s)).psp ≡ stack_top - 60
  unfolding place_task initialize_stack
  placed-psp =
      let (low, high, even) = stack_top-bounds in
      let e : sub32 stack_top 60 ≡ stack_top - 60 = omega (arith, low, high, top) in
      rw ((==_iff (free_slot s) (free_slot s)).1 refl) e

  -- A word above the canary is the one that was pushed.
  word :
      (k w : ℕ)
      → k ≤ 60
      → load32 pushed (stack_top - k) ≡ w
      → load32 placed.heap.mem (stack_top - k) ≡ w
  word k w le e =
      let (low, high, even) = stack_top-bounds in
      ap (λ m. load32 m (stack_top - k)) placed-mem
      ∙ load32-store32_ne pushed base (stack_top - k) stack_canary (inr (omega (arith, low, le)))
      ∙ e

  -- For a stack of whole 8-byte units, at least 512 bytes, at a word-aligned address below the end
  -- of memory, and code addresses and an argument that are words, the part of `task_create` behind
  -- the allocation writes no byte outside the stack, leaves the canary at its base, and puts the
  -- first frame above the canary and inside the stack, with the entry point, `task_exit` as return
  -- address and the argument where the hardware pops them; the saved stack pointer is 4 modulo 8.
  pub place-Framed : Framed image s func arg size base placed ((placed.task_list (free_slot s)).psp)
  place-Framed =
      let (low, high, even) = stack_top-bounds in
      let psp = placed-psp in
      let exit = image.task_exit in
      let zeros : List ℕ = 0 ∷ 0 ∷ 0 ∷ 0 ∷ 0 ∷ 0 ∷ 0 ∷ 0 ∷ [] in
      let fits : 4 * 16 ≤ stack_top = omega (arith, low) in
      let range : stack_top + 4 ≤ u32 = omega (arith, high, top) in
      let pc : load32 pushed (stack_top - 4 * 1) ≡ func =
        push_words_word (16777216 ∷ []) func (exit ∷ 0 ∷ 0 ∷ 0 ∷ 0 ∷ arg ∷ zeros) s.heap.mem
          stack_top f fits range in
      let lr : load32 pushed (stack_top - 4 * 2) ≡ exit =
        push_words_word (16777216 ∷ func ∷ []) exit (0 ∷ 0 ∷ 0 ∷ 0 ∷ arg ∷ zeros) s.heap.mem
          stack_top x fits range in
      let r0 : load32 pushed (stack_top - 4 * 7) ≡ arg =
        push_words_word (16777216 ∷ func ∷ exit ∷ 0 ∷ 0 ∷ 0 ∷ 0 ∷ []) arg zeros s.heap.mem stack_top
          a fits range in
      let at = λ (k n : ℕ) (e : k + n ≡ 60) (le : k ≤ 60).
        let d : (placed.task_list (free_slot s)).psp + n ≡ stack_top - k =
          omega (arith, psp, e, low) in
        ap (load32 placed.heap.mem) d in
      record {
        outside = λ p o.
            ap (λ m. m p) placed-mem
            ∙ store32-ne pushed base stack_canary p (omega (arith, o, room))
            ∙ push_words_outside (first_frame exit func arg) s.heap.mem stack_top p fits range
                (omega (arith, o, low, high));
        canary =
            ap (λ m. load32 m base) placed-mem
            ∙ load32-store32_self pushed base stack_canary (omega arith);
        above = omega (arith, psp, low);
        within = omega (arith, psp, low, high);
        misaligned = omega (arith, psp, low, even);
        entry = at 4 56 (omega arith) (omega arith) ∙ word 4 func (omega arith) pc;
        return = at 8 52 (omega arith) (omega arith) ∙ word 8 exit (omega arith) lr;
        argument = at 28 32 (omega arith) (omega arith) ∙ word 28 arg (omega arith) r0;
      }
