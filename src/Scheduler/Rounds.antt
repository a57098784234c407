-- ===== src/Scheduler/Rounds.antt =====
-- One round of the loop of `task_garbage_collection`: the slot is dropped, stays or moves down.
use stm32_cli_os.Prelude.{
  ℕ, suc, ◌+◌, ◌<◌, ◌≤◌, ◌≡◌, ◌≢◌, refl, sym, ap, subst, ◌∙◌, inl, inr, true, false, Option, none,
  some, arith, ◌==◌, ==_iff, ==_ne, Bool-cases, if◌then◌else◌,
}
use stm32_cli_os.Allocator.{Heap}
use stm32_cli_os.Scheduler.{System, same_task}
use stm32_cli_os.Scheduler.Collect.{redirect, move_task}
use stm32_cli_os.Scheduler.Compact.{
  live, live_count, target, Behind, live_count-Behind, target-suc, here-target, Redirected,
  Follows-suc, Compacts,
}
use stm32_cli_os.Scheduler.Reap.{Reaped}

-- One round on slot `i`.
pub record Round (s : System) (i w : ℕ) (h : Heap) (s₂ : System) : Type 0 where
  pub heap : s₂.heap ≡ h
  pub behind : Behind s.task_list s₂.task_list i
  pub below : (j : ℕ) → j < w → s₂.task_list j ≡ s.task_list j
  pub landed : live (s.task_list i) ≡ true → s₂.task_list w ≡ s.task_list i
  pub current : Redirected i w (live (s.task_list i)) s.task_current s₂.task_current
  pub next : Redirected i w (live (s.task_list i)) s.task_next s₂.task_next
  pub idle : Redirected i w (live (s.task_list i)) s.idle_task s₂.idle_task
  pub index :
      s.task_current ≡ some s.task_current_index → s₂.task_current ≡ some s₂.task_current_index

pub Round-Compacts :
    (s s₂ : System) (i k w : ℕ) (h₁ h : Heap) (result : Option (System × ℕ))
    → w ≤ i
    → Round s i w h₁ s₂
    → Compacts s₂ (i + 1) k (w + live_count s.task_list i 1) h result
    → Compacts s i (suc k) w h result
Round-Compacts s s₂ i k w h₁ h result le r z =
    let list = s.task_list in
    let list₂ = s₂.task_list in
    let same = live_count-Behind list list₂ i (i + 1) k r.behind (omega arith) in
    record {
      after = z.after;
      ends = z.ends ∙ ap (λ n. some (z.after, n)) (omega (arith, same));
      heap = z.heap;
      moved = λ c lo hi l. elim (Bool-cases (i == c)) [
        | inl here ↦
            let eq = (==_iff i c).0 here in
            let l' : live (list i) ≡ true = ap (λ x. live (list x)) eq ∙ l in
            let one : live_count list i 1 ≡ 1 = rw l' (omega arith) in
            let at : target list i w c ≡ w =
              ap (target list i w) (sym eq) ∙ here-target list list₂ i k w le r.behind in
            ap (z.after).task_list at ∙ z.below w (omega (arith, one)) ∙ r.landed l' ∙ ap list eq
        | inr away ↦
            let ne : i ≢ c = λ x. absurd (cc (away, (==_iff i c).1 x)) in
            let lt : i < c = omega (arith, lo, ne) in
            ap (z.after).task_list (sym (target-suc list list₂ i w c _ r.behind lt refl))
            ∙ z.moved c (omega (arith, lt)) (omega (arith, hi)) (ap live (r.behind c lt) ∙ l)
            ∙ r.behind c lt
      ];
      below = λ j lt. z.below j (omega (arith, lt)) ∙ r.below j lt;
      current = Follows-suc list list₂ i k w le r.behind _ _ _ r.current z.current;
      next = Follows-suc list list₂ i k w le r.behind _ _ _ r.next z.next;
      idle = Follows-suc list list₂ i k w le r.behind _ _ _ r.idle z.idle;
      index = λ e. z.index (r.index e);
    }

move-index :
    (i w ix : ℕ) (p : Option ℕ)
    → p ≡ some ix
    → redirect i w p ≡ some (if same_task i p then w else ix)
move-index i w ix p e =
    subst (λ q. redirect i w q ≡ some (if same_task i q then w else ix)) (sym e)
      (elim (Bool-cases (i == ix)) [ inl y ↦ rw y refl | inr n ↦ rw n refl ])

module _ (s s₁ : System) (i w : ℕ) (h : Heap) (le : w ≤ i) (g : Reaped s i h s₁) where
  pub dropped-Round : live (s.task_list i) ≡ false → Round s i w h s₁
  dropped-Round dead = record {
    heap = g.heap;
    behind = λ j lt. g.others j (omega (arith, lt));
    below = λ j lt. g.others j (omega (arith, lt));
    landed = λ l. absurd (cc (l, dead));
    current = rw dead (g.current);
    next = rw dead (g.next);
    idle = rw dead (g.idle);
    index = λ e. g.current ∙ e ∙ ap some (sym g.index);
  }

  pub moved-Round : live (s.task_list i) ≡ true → w ≢ i → Round s i w h (move_task s₁ i w)
  unfolding move_task
  moved-Round alive ne = record {
    heap = g.heap;
    behind = λ j lt. rw (==_ne j w (omega (arith, lt))) (g.others j (omega (arith, lt)));
    below = λ j lt. rw (==_ne j w (omega (arith, lt))) (g.others j (omega (arith, lt)));
    landed = λ l. rw ((==_iff w w).1 refl) (g.kept l);
    current = rw alive (ap (redirect i w) g.current);
    next = rw alive (ap (redirect i w) g.next);
    idle = rw alive (ap (redirect i w) g.idle);
    index = λ e.
        move-index i w s₁.task_current_index s₁.task_current
          (g.current ∙ e ∙ ap some (sym g.index));
  }

redirect_self : (i : ℕ) (p : Option ℕ) → redirect i i p ≡ p
redirect_self i none = refl
redirect_self i (some j) = elim (Bool-cases (i == j)) [
  | inl y ↦ rw y (ap some ((==_iff i j).0 y))
  | inr n ↦ rw n refl
]

pub stays-Round :
    (s s₁ : System) (i : ℕ) (h : Heap)
    → Reaped s i h s₁
    → live (s.task_list i) ≡ true
    → Round s i i h s₁
stays-Round s s₁ i h g alive = record {
  heap = g.heap;
  behind = λ j lt. g.others j (omega (arith, lt));
  below = λ j lt. g.others j (omega (arith, lt));
  landed = λ l. g.kept l;
  current = rw alive (g.current ∙ sym (redirect_self i s.task_current));
  next = rw alive (g.next ∙ sym (redirect_self i s.task_next));
  idle = rw alive (g.idle ∙ sym (redirect_self i s.idle_task));
  index = λ e. g.current ∙ e ∙ ap some (sym g.index);
}
