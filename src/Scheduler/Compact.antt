-- ===== src/Scheduler/Compact.antt =====
-- What `task_garbage_collection` does to the table: the live tasks move to the front in order, and
-- every pointer follows its task.
use stm32_cli_os.Prelude.{
  ℕ, zero, suc, ◌+◌, ◌-◌, ◌<◌, ◌≤◌, ◌≡◌, ◌≢◌, refl, sym, ap, ◌∙◌, ◌>>=◌, inl, inr, Bool, true, ◌&&◌,
  not, Option, some, arith, ◌==◌, ==_iff, ==_ne, Bool-cases, if◌then◌else◌,
}
use mathlib.Core.Path.{fun_ext}
use stm32_cli_os.Allocator.{Heap, null, allocator_free}
use stm32_cli_os.Scheduler.{System, Task, is_unused, is_zombie}
use stm32_cli_os.Scheduler.Collect.{redirect}

-- A slot that holds a task that has not ended.
abbrev pub live : Task → Bool
live t = not (is_unused t.state) && not (is_zombie t.state)

abbrev pub live_count : (ℕ → Task) → ℕ → ℕ → ℕ
live_count list i zero = 0
live_count list i (suc k) = (if live (list i) then 1 else 0) + live_count list (i + 1) k

-- The heap without the stack of a zombie, and without those of the zombies among `k` slots, freed
-- one after the other.
abbrev pub free_stack : Task → Heap → Option Heap
free_stack t h =
    if is_zombie t.state && not (t.stack_ptr == null) then allocator_free h t.stack_ptr else some h

abbrev pub free_stacks : (ℕ → Task) → ℕ → ℕ → Heap → Option Heap
free_stacks list i zero h = some h
free_stacks list i (suc k) h = free_stack (list i) h >>= λ h'. free_stacks list (i + 1) k h'

-- The slot that a live task of slot `c` moves to, when slot `i` moves to `w`.
abbrev pub target : (ℕ → Task) → ℕ → ℕ → ℕ → ℕ
target list i w c = w + live_count list i (c - i)

-- `p'` points to where the task of `p` went.
abbrev pub Follows : (ℕ → Task) → ℕ → ℕ → ℕ → Option ℕ → Option ℕ → Type 0
Follows list i k w p p' =
    (c : ℕ)
    → p ≡ some c
    → (c < w → p' ≡ some c)
      × (i ≤ c → c < i + k → live (list c) ≡ true → p' ≡ some (target list i w c))

-- The slots behind `i` as they were.
abbrev pub Behind : (ℕ → Task) → (ℕ → Task) → ℕ → Type 0
Behind list list' i = (j : ℕ) → i < j → list' j ≡ list j

pub live_count-Behind :
    (list list' : ℕ → Task) (i j k : ℕ)
    → Behind list list' i
    → i < j
    → live_count list' j k ≡ live_count list j k
live_count-Behind list list' i j zero b lt = refl
live_count-Behind list list' i j (suc k) b lt =
    rw (b j lt, live_count-Behind list list' i (j + 1) k b (omega (arith, lt))) refl

pub free_stacks-Behind :
    (list list' : ℕ → Task) (i j k : ℕ) (h : Heap)
    → Behind list list' i
    → i < j
    → free_stacks list' j k h ≡ free_stacks list j k h
free_stacks-Behind list list' i j zero h b lt = refl
free_stacks-Behind list list' i j (suc k) h b lt = rw (b j lt) (
    ap (λ f. free_stack (list j) h >>= f)
      (fun_ext λ h'. free_stacks-Behind list list' i (j + 1) k h' b (omega (arith, lt))))

-- One round on a pointer: the slot is dropped, stays, or moves down to `w`.
pub target-suc :
    (list list' : ℕ → Task) (i w c n : ℕ)
    → Behind list list' i
    → i < c
    → live_count list i 1 ≡ n
    → target list' (i + 1) (w + n) c ≡ target list i w c
target-suc list list' i w c n b lt one =
    let e : c - i ≡ suc (c - (i + 1)) = omega (arith, lt) in
    let same = live_count-Behind list list' i (i + 1) (c - (i + 1)) b (omega arith) in
    rw (e, same) (omega (arith, one))

-- The outcome of the loop over `k` slots from `i` on, with `w` slots written.
pub record Compacts (s : System) (i k w : ℕ) (h : Heap) (result : Option (System × ℕ))
    : Type 0 where
  pub after : System
  pub ends : result ≡ some (after, w + live_count s.task_list i k)
  pub heap : after.heap ≡ h
  pub moved :
      (c : ℕ)
      → i ≤ c
      → c < i + k
      → live (s.task_list c) ≡ true
      → after.task_list (target s.task_list i w c) ≡ s.task_list c
  pub below : (j : ℕ) → j < w → after.task_list j ≡ s.task_list j
  pub current : Follows s.task_list i k w s.task_current after.task_current
  pub next : Follows s.task_list i k w s.task_next after.task_next
  pub idle : Follows s.task_list i k w s.idle_task after.idle_task
  pub index :
      s.task_current ≡ some s.task_current_index
      → after.task_current ≡ some after.task_current_index

-- The pointers after one round.
abbrev pub Redirected : ℕ → ℕ → Bool → Option ℕ → Option ℕ → Type 0
Redirected i w alive p p' = p' ≡ (if alive then redirect i w p else p)

module _ (list list' : ℕ → Task) (i k w : ℕ) (le : w ≤ i) (b : Behind list list' i) where
  -- A pointer to a slot that is not the one of this round.
  pass-on :
      (q p' : Option ℕ) (c : ℕ)
      → Follows list' (i + 1) k (w + live_count list i 1) q p'
      → q ≡ some c
      → (c < w → p' ≡ some c)
        × (i < c → c < i + suc k → live (list c) ≡ true → p' ≡ some (target list i w c))
  pass-on q p' c f e = (
    λ lt. (f c e).0 (omega (arith, lt)),
    λ lt hi l.
        (f c e).1 (omega (arith, lt)) (omega (arith, hi)) (ap live (b c lt) ∙ l)
        ∙ ap some (target-suc list list' i w c (live_count list i 1) b lt refl),
  )

  pub here-target : target list i w i ≡ w
  here-target = let z : i - i ≡ 0 = omega arith in ap (λ x. w + live_count list i x) z ∙ omega arith

  redirect-ne : (c : ℕ) → i ≢ c → redirect i w (some c) ≡ some c
  redirect-ne c ne = rw (==_ne i c ne) refl

  redirect-here : redirect i w (some i) ≡ some w
  redirect-here = rw ((==_iff i i).1 refl) refl

  pub Follows-suc :
      (p q p' : Option ℕ)
      → Redirected i w (live (list i)) p q
      → Follows list' (i + 1) k (w + live_count list i 1) q p'
      → Follows list i (suc k) w p p'
  Follows-suc p q p' red f c e = elim (Bool-cases (live (list i))) [
    | inl alive ↦
        let moved : q ≡ redirect i w (some c) = (rw alive at red) ∙ ap (redirect i w) e in
        let one : live_count list i 1 ≡ 1 = rw alive (omega arith) in
        (
          λ lt. (pass-on q p' c f (moved ∙ redirect-ne c (omega (arith, lt)))).0 lt,
          λ lo hi l. elim (Bool-cases (i == c)) [
            | inl here ↦
                let eq = (==_iff i c).0 here in
                let q-here : q ≡ some w =
                  moved ∙ ap (λ x. redirect i w (some x)) (sym eq) ∙ redirect-here in
                (f w q-here).0 (omega (arith, one))
                ∙ ap some (sym here-target ∙ ap (target list i w) eq)
            | inr away ↦
                let ne : i ≢ c = λ x. absurd (cc (away, (==_iff i c).1 x)) in
                (pass-on q p' c f (moved ∙ redirect-ne c ne)).1 (omega (arith, lo, ne)) hi l
          ],
        )
    | inr dead ↦
        let same : q ≡ some c = (rw dead at red) ∙ e in
        let on = pass-on q p' c f same in
        (
          on.0,
          λ lo hi l. elim (Bool-cases (i == c)) [
            | inl here ↦ absurd (cc (l, dead, (==_iff i c).0 here))
            | inr away ↦
                let ne : i ≢ c = λ x. absurd (cc (away, (==_iff i c).1 x)) in
                on.1 (omega (arith, lo, ne)) hi l
          ],
        )
  ]
