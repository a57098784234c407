-- ===== src/Scheduler/Collected.antt =====
-- `task_garbage_collection` as a whole: what the table, the pointers and the heap are after it.
use stm32_cli_os.Prelude.{
  ℕ, zero, suc, ◌+◌, ◌-◌, ◌<◌, ◌≤◌, ◌≡◌, ◌≢◌, refl, sym, ap, subst, ◌∙◌, inl, inr, some_value, true,
  List, Option, some, arith, ◌==◌, ==_iff, Bool-cases, Option-cases, le→leb, lt→ltb, lt→leb,
}
use stm32_cli_os.Allocator.{Heap}
use stm32_cli_os.Allocator.Blocks.{Block}
use stm32_cli_os.Allocator.Chain.{Represents}
use stm32_cli_os.Scheduler.Stacks.{Owned, StacksFreed, free_stacks-Frees}
use stm32_cli_os.Scheduler.{System, Task, no_task}
use stm32_cli_os.Scheduler.Collect.{move_task, compact_loop, close_table, task_garbage_collection}
use stm32_cli_os.Scheduler.Compact.{
  live, live_count, free_stack, free_stacks, target, free_stacks-Behind, Compacts,
}
use stm32_cli_os.Scheduler.Reap.{reap-Reaped}
use stm32_cli_os.Scheduler.Rounds.{Round, Round-Compacts, dropped-Round, moved-Round, stays-Round}

compact_loop-Compacts :
    (k : ℕ) (s : System) (i w : ℕ) (h : Heap)
    → w ≤ i
    → free_stacks s.task_list i k s.heap ≡ some h
    → Compacts s i k w h (compact_loop k s i w)
unfolding compact_loop
compact_loop-Compacts zero s i w h le e = record {
  after = s;
  ends = ap (λ n. some (s, n)) (omega arith);
  heap = some_value e;
  moved = λ c lo hi l. absurd (omega (arith, lo, hi));
  below = λ j lt. refl;
  current = λ c q. (λ lt. q, λ lo hi l. absurd (omega (arith, lo, hi)));
  next = λ c q. (λ lt. q, λ lo hi l. absurd (omega (arith, lo, hi)));
  idle = λ c q. (λ lt. q, λ lo hi l. absurd (omega (arith, lo, hi)));
  index = λ q. q;
}
compact_loop-Compacts (suc k) s i w h le e =
    let list = s.task_list in
    let Goal = λ (result : Option (System × ℕ)). Compacts s i (suc k) w h result in
    elim (Option-cases (free_stack (list i) s.heap)) [
      | inl stuck ↦ absurd (cc (rw stuck at e))
      | inr (h₁, freed) ↦
          let rest : free_stacks list (i + 1) k h₁ ≡ some h = rw freed at e in
          let (s₁, call, g) = reap-Reaped s i h₁ freed in
          let later = λ (s₂ : System) (n : ℕ) (r : Round s i w h₁ s₂) (small : w + n ≤ i + 1).
            compact_loop-Compacts k s₂ (i + 1) (w + n) h small (
              ap (free_stacks s₂.task_list (i + 1) k) r.heap
              ∙ free_stacks-Behind list s₂.task_list i (i + 1) k h₁ r.behind (omega arith)
              ∙ rest) in
          elim (Bool-cases (live (list i))) [
            | inr dead ↦
                let r = dropped-Round s s₁ i w h₁ le g dead in
                let none_kept : live_count list i 1 ≡ 0 = rw dead (omega arith) in
                let e₁ : w + live_count list i 1 ≡ w = omega (arith, none_kept) in
                let e₂ : w + 0 ≡ w = omega arith in
                let z = later s₁ 0 r (omega (arith, le)) in
                rw (call, g.dropped, dead)
                  (Round-Compacts s s₁ i k w h₁ h _ le r (rw e₁ (rw e₂ at z)))
            | inl alive ↦
                let one : live_count list i 1 ≡ 1 = rw alive (omega arith) in
                let used = g.dropped in
                elim (Bool-cases (i == w)) [
                  | inl stays ↦
                      let same = (==_iff i w).0 stays in
                      let r = subst (λ x. Round s i x h₁ s₁) same (stays-Round s s₁ i h₁ g alive) in
                      let z = later s₁ 1 r (omega (arith, le)) in
                      rw (call, used, alive, stays)
                        (Round-Compacts s s₁ i k w h₁ h _ le r (rw one z))
                  | inr moves ↦
                      let ne : w ≢ i = λ x. absurd (cc (moves, (==_iff i w).1 (sym x))) in
                      let r = moved-Round s s₁ i w h₁ le g alive ne in
                      let z = later (move_task s₁ i w) 1 r (omega (arith, le, ne)) in
                      rw (call, used, alive, moves)
                        (Round-Compacts s (move_task s₁ i w) i k w h₁ h _ le r (rw one z))
                ]
          ]
    ]

-- A live slot moves below the new count.
live_count-lt :
    (list : ℕ → Task) (i c k : ℕ)
    → c < k
    → live (list (i + c)) ≡ true
    → live_count list i c < live_count list i k
live_count-lt list i zero zero lt l = absurd (omega (arith, lt))
live_count-lt list i zero (suc k) lt l =
    let e : i + 0 ≡ i = omega arith in
    let l' : live (list i) ≡ true = rw e at l in rw l' (omega arith)
live_count-lt list i (suc c) zero lt l = absurd (omega (arith, lt))
live_count-lt list i (suc c) (suc k) lt l =
    let e : i + suc c ≡ i + 1 + c = omega arith in
    omega (arith, live_count-lt list (i + 1) c k (omega (arith, lt)) (rw e at l))

target-front : (list : ℕ → Task) (c : ℕ) → target list 0 0 c ≡ live_count list 0 c
target-front list c =
    let e : c - 0 ≡ c = omega arith in
    let z : 0 + live_count list 0 (c - 0) ≡ live_count list 0 (c - 0) = omega arith in
    z ∙ ap (live_count list 0) e

-- A call of the collection on a heap of the blocks `bs`.
pub record Collected (s : System) (bs : List Block) (result : Option System) : Type 0 where
  pub after : System
  pub ends : result ≡ some after
  pub stacks : StacksFreed s.task_list 0 s.task_count s.heap bs after.heap
  pub count : after.task_count ≡ live_count s.task_list 0 s.task_count
  pub kept :
      (c : ℕ)
      → c < s.task_count
      → live (s.task_list c) ≡ true
      → after.task_list (live_count s.task_list 0 c) ≡ s.task_list c
  pub cleared : (j : ℕ) → after.task_count ≤ j → j < 58 → after.task_list j ≡ no_task
  pub follows :
      (c : ℕ)
      → c < s.task_count
      → live (s.task_list c) ≡ true
      → (s.task_current ≡ some c → after.task_current ≡ some (live_count s.task_list 0 c))
        × (s.task_next ≡ some c → after.task_next ≡ some (live_count s.task_list 0 c))
        × (s.idle_task ≡ some c → after.idle_task ≡ some (live_count s.task_list 0 c))
  pub index :
      s.task_current ≡ some s.task_current_index
      → after.task_current ≡ some after.task_current_index

-- On a heap that represents a list of blocks, where each zombie of the table that has a stack owns
-- a block in use of its own, `task_garbage_collection` ends. The heap then represents a list with
-- as many blocks in use less as there are such zombies, and every block in use that is none of
-- these stacks is in use at its place, with its bytes; every live task is in the slot numbered by
-- the live tasks in front of it, the count is the number of live tasks, the slots behind are
-- cleared, and the pointers to live tasks (current, next and idle) follow them, the index with the
-- current one.
pub collect-Collected :
    (s : System) (bs : List Block)
    → Represents s.heap bs
    → Owned s.task_list 0 s.task_count s.heap bs
    → Collected s bs (task_garbage_collection s)
unfolding task_garbage_collection
collect-Collected s bs r o =
    let (h, e, freed) = free_stacks-Frees s.task_count s.task_list 0 s.heap bs r o in
    let z = compact_loop-Compacts s.task_count s 0 0 h (omega arith) e in
    let n : ℕ = 0 + live_count s.task_list 0 s.task_count in
    record {
      after = close_table z.after n;
      ends = rw (z.ends) refl;
      stacks = subst (StacksFreed s.task_list 0 s.task_count s.heap bs) (sym z.heap) freed;
      count = omega arith;
      kept = λ c lt l.
          let front : 0 + c ≡ c = omega arith in
          let below = live_count-lt s.task_list 0 c s.task_count lt (rw front l) in
          let at : live_count s.task_list 0 c < n = omega (arith, below) in
          rw (lt→leb n (live_count s.task_list 0 c) at) (
            ap (z.after).task_list (sym (target-front s.task_list c))
            ∙ z.moved c (omega arith) (omega (arith, lt)) l);
      cleared = λ j lo hi. rw (le→leb _ _ lo, lt→ltb _ _ hi) refl;
      follows = λ c lt l.
          let place = ap some (target-front s.task_list c) in
          (
            λ p. (z.current c p).1 (omega arith) (omega (arith, lt)) l ∙ place,
            λ p. (z.next c p).1 (omega arith) (omega (arith, lt)) l ∙ place,
            λ p. (z.idle c p).1 (omega arith) (omega (arith, lt)) l ∙ place,
          );
      index = z.index;
    }
