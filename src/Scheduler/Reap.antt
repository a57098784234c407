-- ===== src/Scheduler/Reap.antt =====
-- `reap` of a slot in `task_garbage_collection`.
use stm32_cli_os.Prelude.{
  ℕ, ◌≡◌, ◌≢◌, refl, inl, inr, some_value, true, false, not, some, arith, ◌==◌, ==_iff, ==_ne,
  Bool-cases, put,
}
use stm32_cli_os.Allocator.{Heap, null, allocator_free}
use stm32_cli_os.Scheduler.{System, Task, task_unused, is_unused, is_zombie, set_state}
use stm32_cli_os.Scheduler.Collect.{reap}
use stm32_cli_os.Scheduler.Compact.{live, free_stack}

-- A slot after `reap`: a zombie is unused and its stack is free, all else is as it was.
pub record Reaped (s : System) (i : ℕ) (h : Heap) (s' : System) : Type 0 where
  pub heap : s'.heap ≡ h
  pub dropped : is_unused (s'.task_list i).state ≡ not (live (s.task_list i))
  pub kept : live (s.task_list i) ≡ true → s'.task_list i ≡ s.task_list i
  pub others : (j : ℕ) → j ≢ i → s'.task_list j ≡ s.task_list j
  pub current : s'.task_current ≡ s.task_current
  pub next : s'.task_next ≡ s.task_next
  pub idle : s'.idle_task ≡ s.idle_task
  pub index : s'.task_current_index ≡ s.task_current_index

zombie-dead : (t : Task) → is_zombie t.state ≡ true → live t ≡ false
zombie-dead t dead = ground (arith, dead)

alive-unused : (t : Task) → is_zombie t.state ≡ false → is_unused t.state ≡ not (live t)
alive-unused t alive = ground (arith, alive)

pub reap-Reaped :
    (s : System) (i : ℕ) (h : Heap)
    → free_stack (s.task_list i) s.heap ≡ some h
    → (s' : System) × (reap s i ≡ some s') × Reaped s i h s'
unfolding reap
reap-Reaped s i h e =
    let t = s.task_list i in
    elim (Bool-cases (is_zombie t.state)) [
      | inl dead ↦ elim (Bool-cases (t.stack_ptr == null)) [
        | inl none_there ↦
            let e' : some s.heap ≡ some h = rw (dead, none_there) at e in
            (
              set_state s i task_unused,
              rw (dead, none_there) refl,
              record {
                heap = some_value e';
                dropped = rw ((==_iff i i).1 refl, zombie-dead t dead) refl;
                kept = λ l. absurd (cc (l, zombie-dead t dead));
                others = λ j ne. rw (==_ne j i ne) refl;
                current = refl;
                next = refl;
                idle = refl;
                index = refl;
              },
            )
        | inr there ↦
            let e' : allocator_free s.heap t.stack_ptr ≡ some h = rw (dead, there) at e in
            (
              record s {
                heap = h;
                task_list = put s.task_list i (record t { stack_ptr = null; state = task_unused });
              },
              rw (dead, there, e') refl,
              record {
                heap = refl;
                dropped = rw ((==_iff i i).1 refl, zombie-dead t dead) refl;
                kept = λ l. absurd (cc (l, zombie-dead t dead));
                others = λ j ne. rw (==_ne j i ne) refl;
                current = refl;
                next = refl;
                idle = refl;
                index = refl;
              },
            )
      ]
      | inr alive ↦
          let e' : some s.heap ≡ some h = rw alive at e in
          (
            s,
            rw alive refl,
            record {
              heap = some_value e';
              dropped = alive-unused t alive;
              kept = λ l. refl;
              others = λ j ne. refl;
              current = refl;
              next = refl;
              idle = refl;
              index = refl;
            },
          )
    ]
