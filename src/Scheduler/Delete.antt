-- ===== src/Scheduler/Delete.antt =====
-- `task_delete` on every branch.
use stm32_cli_os.Prelude.{
  ℕ, zero, suc, ◌+◌, ◌<◌, ◌≤◌, ◌≡◌, ◌≢◌, refl, sym, ap, ◌∙◌, ◌⊎◌, inl, inr, Bool, true, false,
  Option, none, some, arith, ◌==◌, ==_iff, ==_ne, Bool-cases, ◌↔◌, some_value,
}
use stm32_cli_os.Scheduler.{
  System, Task, TaskReturn, delete_success, delete_task_not_found, delete_is_idle,
  delete_is_current_task, task_zombie, same_task, find_task,
}
use stm32_cli_os.Scheduler.Control.{task_delete, delete_found}

-- The first slot among `k` from `i` on that passes a test.
abbrev pub FirstTask : (Task → Bool) → (ℕ → Task) → ℕ → ℕ → Option ℕ → Type 0
FirstTask test list k i none = (j : ℕ) → i ≤ j → j < i + k → test (list j) ≡ false
FirstTask test list k i (some r) =
    (i ≤ r)
    × (r < i + k)
    × (test (list r) ≡ true)
    × ((j : ℕ) → i ≤ j → j < r → test (list j) ≡ false)

FirstTask-suc :
    (test : Task → Bool) (list : ℕ → Task) (k i : ℕ) (o : Option ℕ)
    → test (list i) ≡ false
    → FirstTask test list k (i + 1) o
    → FirstTask test list (suc k) i o
FirstTask-suc test list k i none off f = λ j lo hi. elim (Bool-cases (i == j)) [
  | inl here ↦ ap (λ x. test (list x)) (sym ((==_iff i j).0 here)) ∙ off
  | inr away ↦
      let ne : i ≢ j = λ e. absurd (cc (away, (==_iff i j).1 e)) in
      f j (omega (arith, lo, ne)) (omega (arith, hi))
]
FirstTask-suc test list k i (some r) off (lo, hi, on, before) = (
  omega (arith, lo),
  omega (arith, hi),
  on,
  λ j lo' lt. elim (Bool-cases (i == j)) [
    | inl here ↦ ap (λ x. test (list x)) (sym ((==_iff i j).0 here)) ∙ off
    | inr away ↦
        let ne : i ≢ j = λ e. absurd (cc (away, (==_iff i j).1 e)) in
        before j (omega (arith, lo', ne)) lt
  ],
)

pub find_task-FirstTask :
    (k : ℕ) (test : Task → Bool) (list : ℕ → Task) (i : ℕ)
    → FirstTask test list k i (find_task test list k i)
unfolding find_task
find_task-FirstTask zero test list i = λ j lo hi. absurd (omega (arith, lo, hi))
find_task-FirstTask (suc k) test list i = elim (Bool-cases (test (list i))) [
  | inl on ↦ rw on (omega arith, omega arith, on, λ j lo lt. absurd (omega (arith, lo, lt)))
  | inr off ↦ rw off (FirstTask-suc test list k i _ off (find_task-FirstTask k test list (i + 1)))
]

same_task_iff : (i : ℕ) (p : Option ℕ) → (same_task i p ≡ true) ↔ (p ≡ some i)
same_task_iff i none = (λ e. absurd (cc e), λ e. absurd (cc e))
same_task_iff i (some j) = (
  λ e. ap some (sym ((==_iff i j).0 e)),
  λ e. let same : j ≡ i = some_value e in (==_iff i j).1 (sym same),
)

-- What becomes of the slot `i` that was found.
abbrev pub Ends : System → ℕ → TaskReturn × System → Type 0
Ends s i r =
    ((r.0 ≡ delete_is_idle) × (r.1 ≡ s) × ((s.task_list i).is_idle ≡ true))
    ⊎ ((r.0 ≡ delete_is_current_task) × (r.1 ≡ s) × (s.task_current ≡ some i))
    ⊎ ((r.0 ≡ delete_success)
        × ((s.task_list i).is_idle ≡ false)
        × (s.task_current ≢ some i)
        × ((r.1.task_list i).state ≡ task_zombie)
        × ((r.1.task_list i).task_id ≡ 0)
        × ((j : ℕ) → j ≢ i → r.1.task_list j ≡ s.task_list j))

abbrev pub Deleted : System → ℕ → TaskReturn × System → Type 0
Deleted s id r =
    ((r.0 ≡ delete_task_not_found)
      × (r.1 ≡ s)
      × ((j : ℕ) → j < s.task_count → (s.task_list j).task_id ≢ id))
    ⊎ ((i : ℕ) × (i < s.task_count)
        × ((s.task_list i).task_id ≡ id)
        × ((j : ℕ) → j < i → (s.task_list j).task_id ≢ id)
        × Ends s i r)

found-Ends : (s : System) (i : ℕ) → Ends s i (delete_found s (some i))
found-Ends s i = elim (Bool-cases (s.task_list i).is_idle) [
  | inl idle ↦ rw idle (inl (refl, refl, refl))
  | inr busy ↦ elim (Bool-cases (same_task i s.task_current)) [
    | inl cur ↦ rw (busy, cur) (inr (inl (refl, refl, (same_task_iff i s.task_current).0 cur)))
    | inr away ↦
        let same = (==_iff i i).1 refl in
        rw (busy, away)
          (inr (
            inr (
              refl,
              refl,
              λ e. absurd (cc (away, (same_task_iff i s.task_current).1 e)),
              rw same refl,
              rw same refl,
              λ j ne. rw (==_ne j i ne) refl,
            )))
  ]
]

differs : (a b : ℕ) → (a == b) ≡ false → a ≢ b
differs a b f e = absurd (cc (f, (==_iff a b).1 e))

search-Deleted :
    (s : System) (id : ℕ) (o : Option ℕ)
    → FirstTask (λ t. t.task_id == id) s.task_list s.task_count 0 o
    → Deleted s id (delete_found s o)
search-Deleted s id none f =
    inl (refl, refl, λ j lt. differs _ _ (f j (omega arith) (omega (arith, lt))))
search-Deleted s id (some i) (lo, hi, on, before) = inr (
  i,
  omega (arith, hi),
  (==_iff _ _).0 on,
  λ j lt. differs _ _ (before j (omega arith) lt),
  found-Ends s i,
)

-- `task_delete` reports not found and changes nothing exactly where no slot of the table has the
-- id; otherwise it looks at the first such slot, refuses the idle and the current task with their
-- codes and no change, and makes any other a zombie with id 0, all other slots kept.
pub delete-Deleted : (s : System) (id : ℕ) → Deleted s id (task_delete s id)
unfolding task_delete
delete-Deleted s id =
    search-Deleted s id (find_task (λ t. t.task_id == id) s.task_list s.task_count 0)
      (find_task-FirstTask s.task_count (λ t. t.task_id == id) s.task_list 0)
