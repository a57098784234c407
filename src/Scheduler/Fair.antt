-- ===== src/Scheduler/Fair.antt =====
-- A task that is ready to run gets the processor.
use stm32_cli_os.Prelude.{
  ℕ, suc, ◌+◌, ◌-◌, ◌%◌, ◌<◌, ◌≤◌, ◌≡◌, ◌≢◌, refl, sym, ap, ap₂, subst, ◌∙◌, ◌⊎◌, inl, inr, true,
  false, Option, none, some, List, [], ◌∷◌, ◌++◌, arith, ◌==◌, ==_iff, Bool-cases, put, length, ltb,
  ltb→lt, ltb→le,
}
use native.Mathlib.Nat.{mod-add-mod, mod-lt}
use stm32_cli_os.Scheduler.{
  switch_from, System, runnable, preempt, save_context, set_current, schedule_next_task,
  pend_sv_handler, task_running,
}
use stm32_cli_os.Scheduler.RoundRobin.{distance, First, Dispatched, schedule-First, preempt-same}

-- Context switches one after the other, with the stack pointer that each saves.
abbrev pub switches : System → List ℕ → System
switches s [] = s
switches s (psp ∷ psps) = switches (pend_sv_handler s psp) psps

-- Slot `j` is ready to run, and `d` slots are in front of it.
record Waits (s : System) (j d : ℕ) : Type 0 where
  cur : ℕ
  current : s.task_current ≡ some cur
  index : s.task_current_index ≡ cur
  in_table : cur < s.task_count
  slot : j ≡ (suc cur + d) % s.task_count
  near : d < s.task_count
  ready : runnable (s.task_list j) ≡ true

runnable-preempt :
    (s : System) (psp cur j : ℕ)
    → runnable (s.task_list j) ≡ true
    → runnable ((preempt (save_context s psp cur) cur).task_list j) ≡ true
runnable-preempt s psp cur j ready = ground arith

pend_sv_handler-schedule :
    (s : System) (psp cur : ℕ)
    → s.task_current ≡ some cur
    → pend_sv_handler s psp ≡ set_current (schedule_next_task (save_context s psp cur))
unfolding pend_sv_handler
pend_sv_handler-schedule s psp cur e = ap (switch_from s psp) e

module _ {s : System} {j d : ℕ} (w : Waits s j d) (psp : ℕ) where
  open w use {cur, current, index, in_table, slot, near, ready}

  abbrev t : System
  t = preempt (save_context s psp cur) cur

  still-ready : runnable (t.task_list j) ≡ true
  still-ready = runnable-preempt s psp cur j ready

  same-count : t.task_count ≡ s.task_count
  same-count = (preempt-same (save_context s psp cur) cur).0

  same-index : t.task_current_index ≡ cur
  same-index = (preempt-same (save_context s psp cur) cur).1 ∙ index

  here-slot : (e : ℕ) → (suc t.task_current_index + e) % t.task_count ≡ (suc cur + e) % s.task_count
  here-slot e = ap₂ (λ i c. (suc i + e) % c) same-index same-count

  in-range : j < s.task_count
  in-range = subst (λ x. x < s.task_count) (sym slot) (mod-lt (suc cur + d) (omega (arith, near)))

  -- From the chosen slot `i`, `e` slots on, the way to `j` is what is left.
  rest-slot :
      (i e : ℕ)
      → i ≡ (suc cur + e) % s.task_count
      → e < d
      → j ≡ (suc i + (d - suc e)) % s.task_count
  rest-slot i e at lt =
      let c : ℕ = s.task_count in
      let k : ℕ = d - suc e in
      let p₁ : suc i + k ≡ i + suc k = omega arith in
      let p₂ : suc cur + e + suc k ≡ suc cur + d = omega (arith, lt) in
      sym (
        ap (λ x. x % c) p₁
        ∙ ap (λ x. (x + suc k) % c) at
        ∙ mod-add-mod (suc cur + e) c (suc k)
        ∙ ap (λ x. x % c) p₂
        ∙ sym slot)

  ready-after :
      (i : ℕ)
      → (i == j) ≡ false
      → runnable (put t.task_list i (record (t.task_list i) { state = task_running }) j) ≡ true
  ready-after i ne = ground (arith, still-ready, ne)

  -- The choice is `j` or a slot nearer to it.
  closer :
      (s' : System) (o : Option ℕ)
      → First t.task_list t.task_count (suc t.task_current_index) t.task_count o
      → Dispatched t o s'
      → ((set_current s').task_current ≡ some j)
        ⊎ ((d' : ℕ) × (d' < d) × Waits (set_current s') j d')
  closer s' none f (off, _) =
      let no = off j (rw same-count in-range) in absurd (cc (still-ready, no))
  closer s' (some i) (e, lt, at, on, skips) (nxt, idx, cnt, lst) = elim (Bool-cases (ltb d e)) [
    | inl past ↦
        let no = skips d (ltb→lt d e past) in
        let same = ap (λ x. runnable (t.task_list x)) (slot ∙ sym (here-slot d)) in
        absurd (cc (still-ready, no, same))
    | inr upto ↦ elim (Bool-cases (i == j)) [
      | inl eq ↦ inl (nxt ∙ ap some ((==_iff i j).0 eq))
      | inr ne ↦
          let at' = at ∙ here-slot e in
          let le = ltb→le d e upto in
          let apart : e ≢ d = λ q.
            let eq : i ≡ j = at' ∙ ap (λ x. (suc cur + x) % s.task_count) q ∙ sym slot in
            absurd (cc (ne, (==_iff i j).1 eq)) in
          let less : e < d = omega (arith, le, apart) in
          inr (
            d - suc e,
            omega (arith, less),
            record {
              cur = i;
              current = nxt;
              index = idx;
              in_table =
                  rw (cnt, same-count)
                    (subst (λ x. x < s.task_count) (sym at')
                      (mod-lt (suc cur + e) (omega (arith, near))));
              slot = rw (cnt, same-count) (rest-slot i e at' less);
              near = omega (arith, cnt, same-count, near);
              ready = rw lst (ready-after i ne);
            },
          )
    ]
  ]

Waits-step :
    {s : System} {j d : ℕ} (psp : ℕ)
    → Waits s j d
    → ((pend_sv_handler s psp).task_current ≡ some j)
      ⊎ ((d' : ℕ) × (d' < d) × Waits (pend_sv_handler s psp) j d')
Waits-step {s} {j} {d} psp w =
    let s₁ = save_context s psp w.cur in
    let (o, f, g) = schedule-First s₁ w.cur w.current (omega (arith, w.index, w.in_table)) in
    subst (λ s'. (s'.task_current ≡ some j) ⊎ ((d' : ℕ) × (d' < d) × Waits s' j d'))
      (sym (pend_sv_handler-schedule s psp w.cur w.current))
      (closer w psp (schedule_next_task s₁) o f g)

-- Some of the first switches reaches the task.
abbrev pub Reached : System → ℕ → List ℕ → Type 0
Reached s j psps =
    (pre : List ℕ) × (post : List ℕ) × (psps ≡ pre ++ post)
    × ((switches s pre).task_current ≡ some j)

Waits-Reached :
    (psps : List ℕ) {s : System} {j d : ℕ} → Waits s j d → d < length psps → Reached s j psps
Waits-Reached [] w lt = elim lt [ ]
Waits-Reached (psp ∷ psps) w lt = elim (Waits-step psp w) [
  | inl now ↦ (psp ∷ [], psps, refl, now)
  | inr (d', less, w') ↦
      let (pre, post, split, there) = Waits-Reached psps w' (omega (arith, less, lt)) in
      (psp ∷ pre, post, ap (λ l. psp ∷ l) split, there)
]

-- Where a current task is in the table and the index agrees with it, a slot of the table that is
-- ready, not sleeping and not idle becomes the current task within as many consecutive context
-- switches as the table has tasks, whatever stack pointers they save.
pub fairness :
    (s : System) (cur j : ℕ)
    → s.task_current ≡ some cur
    → s.task_current_index ≡ cur
    → cur < s.task_count
    → j < s.task_count
    → runnable (s.task_list j) ≡ true
    → (psps : List ℕ) → s.task_count ≤ length psps
    → Reached s j psps
fairness s cur j current index hc hj ready psps enough =
    let (d, near, slot) = distance cur j s.task_count hc hj in
    Waits-Reached psps
      (record {
        cur = cur;
        current = current;
        index = index;
        in_table = hc;
        slot = slot;
        near = near;
        ready = ready;
      })
      (omega (arith, near, enough))
