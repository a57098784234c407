-- ===== src/Scheduler/Stacks.antt =====
-- Freeing the stacks of the zombies of a table, on a heap that represents a list of blocks.
use stm32_cli_os.Prelude.{
  ℕ, zero, suc, ◌+◌, ◌<◌, ◌≤◌, ◌≡◌, ◌≢◌, refl, sym, ap, ◌∙◌, inl, inr, Bool, true, false, ◌&&◌, not,
  some, List, arith, ◌==◌, ==_iff, ==_ne, Bool-cases, if◌then◌else◌, and_parts,
}
use stm32_cli_os.Allocator.{Heap, null}
use stm32_cli_os.Allocator.Blocks.{Block, used_count, coalesce}
use stm32_cli_os.Allocator.Chain.{Represents}
use stm32_cli_os.Allocator.OneFreed.{freed_blocks, one-Freed, one-fewer, survives, survives-data}
use stm32_cli_os.Allocator.InPlace.{UsedAt, coalesce-UsedAt}
use stm32_cli_os.Scheduler.{
  Task, TaskState, is_zombie, task_unused, task_ready, task_running, task_blocked, task_zombie,
}
use stm32_cli_os.Scheduler.Compact.{free_stacks}

-- A zombie whose stack is still there.
abbrev pub HasStack : Task → Type 0
HasStack t = (t.state ≡ task_zombie) × (t.stack_ptr ≢ null)

abbrev pub has_stack : Task → Bool
has_stack t = is_zombie t.state && not (t.stack_ptr == null)

abbrev pub stack_count : (ℕ → Task) → ℕ → ℕ → ℕ
stack_count list i zero = 0
stack_count list i (suc k) = (if has_stack (list i) then 1 else 0) + stack_count list (i + 1) k

has_stack-HasStack : (t : Task) → has_stack t ≡ true → HasStack t
has_stack-HasStack t e =
    let (z, there) = and_parts (is_zombie t.state) (not (t.stack_ptr == null)) e in
    (zombie t.state z, λ n. absurd (cc (there, (==_iff t.stack_ptr null).1 n)))
  where
    zombie : (st : TaskState) → is_zombie st ≡ true → st ≡ task_zombie
    zombie task_zombie e = refl
    zombie task_unused e = absurd (cc e)
    zombie task_ready e = absurd (cc e)
    zombie task_running e = absurd (cc e)
    zombie task_blocked e = absurd (cc e)

no_stack : (t : Task) → has_stack t ≡ false → ¬ HasStack t
no_stack t off (zombie, there) = absurd (cc (rw (zombie, ==_ne t.stack_ptr null there) at off))

stack_count-skip :
    (list : ℕ → Task) (i k : ℕ)
    → has_stack (list i) ≡ false
    → stack_count list i (suc k) ≡ stack_count list (i + 1) k
stack_count-skip list i k off = rw off (omega arith)

stack_count-first :
    (list : ℕ → Task) (i k : ℕ)
    → has_stack (list i) ≡ true
    → stack_count list i (suc k) ≡ 1 + stack_count list (i + 1) k
stack_count-first list i k on = rw on refl

-- The stack of a task is a block in use.
abbrev pub StackAt : Heap → List Block → Task → Type 0
StackAt h bs t = (n : ℕ) × (off : ℕ) × UsedAt n off bs × (t.stack_ptr ≡ h.head + off + 8)

-- Each zombie among `k` slots has a block in use of its own.
pub record Owned (list : ℕ → Task) (i k : ℕ) (h : Heap) (bs : List Block) : Type 0 where
  pub stacks : (c : ℕ) → i ≤ c → c < i + k → HasStack (list c) → StackAt h bs (list c)
  pub apart :
      (c d : ℕ)
      → i ≤ c
      → c < d
      → d < i + k
      → HasStack (list c)
      → HasStack (list d)
      → (list c).stack_ptr ≢ (list d).stack_ptr

-- The blocks of the zombies are no longer in use, the others are, with their bytes.
pub record StacksFreed (list : ℕ → Task) (i k : ℕ) (h : Heap) (bs : List Block) (after : Heap)
    : Type 0 where
  pub blocks : List Block
  pub represents : Represents after blocks
  pub same_head : after.head ≡ h.head
  pub fewer : used_count blocks + stack_count list i k ≡ used_count bs
  pub others :
      (n off : ℕ)
      → UsedAt n off bs
      → ((c : ℕ) → i ≤ c → c < i + k → HasStack (list c) → (list c).stack_ptr ≢ h.head + off + 8)
      → UsedAt n off blocks
        × ((p : ℕ) → h.head + off + 8 ≤ p → p < h.head + off + 8 + n → after.mem p ≡ h.mem p)

Owned-rest :
    (list : ℕ → Task) (i k : ℕ) (h : Heap) (bs : List Block)
    → Owned list i (suc k) h bs
    → Owned list (i + 1) k h bs
Owned-rest list i k h bs o = record {
  stacks = λ c lo hi. o.stacks c (omega (arith, lo)) (omega (arith, hi));
  apart = λ c d lo lt hi. o.apart c d (omega (arith, lo)) lt (omega (arith, hi));
}

-- The first zombie's stack is freed: the others still own theirs.
Owned-freed :
    (list : ℕ → Task) (i k : ℕ) (h : Heap) (bs : List Block) (r : Represents h bs) (s off : ℕ)
    (u : UsedAt s off bs) (here : (list i).stack_ptr ≡ h.head + off + 8)
    → HasStack (list i)
    → Owned list i (suc k) h bs
    → Owned list
        (i + 1)
        k
        (one-Freed h bs r s off u (list i).stack_ptr here).after
        (coalesce (freed_blocks h bs r s off u (list i).stack_ptr here))
Owned-freed list i k h bs r s off u here first o =
    let f = one-Freed h bs r s off u (list i).stack_ptr here in
    record {
      stacks = λ c lo hi z.
          let (n, off', v, there) = o.stacks c (omega (arith, lo)) (omega (arith, hi)) z in
          let away = o.apart i c (omega arith) (omega (arith, lo)) (omega (arith, hi)) first z in
          let ne : off' ≢ off = λ e. away (omega (arith, here, there, e)) in
          (
            n,
            off',
            coalesce-UsedAt (survives h bs r s off u (list i).stack_ptr here n off' v ne),
            omega (arith, there, f.same_head),
          );
      apart = λ c d lo lt hi. o.apart c d (omega (arith, lo)) lt (omega (arith, hi));
    }

abbrev pub Frees : (ℕ → Task) → ℕ → ℕ → Heap → List Block → Type 0
Frees list i k h bs =
    (after : Heap) × (free_stacks list i k h ≡ some after) × StacksFreed list i k h bs after

-- The slot `i` has no stack to free.
Frees-skip :
    (list : ℕ → Task) (i k : ℕ) (h : Heap) (bs : List Block)
    → has_stack (list i) ≡ false
    → Frees list (i + 1) k h bs
    → Frees list i (suc k) h bs
Frees-skip list i k h bs off (after, ends, f) = rw off (
  after,
  ends,
  record {
    blocks = f.blocks;
    represents = f.represents;
    same_head = f.same_head;
    fewer = ap (λ n. used_count f.blocks + n) (stack_count-skip list i k off) ∙ f.fewer;
    others =
        λ n x v away. f.others n x v (λ c lo hi. away c (omega (arith, lo)) (omega (arith, hi)));
  },
)

-- The slot `i` has a stack, which is freed first.
Frees-first :
    (list : ℕ → Task) (i k : ℕ) (h : Heap) (bs : List Block) (r : Represents h bs) (s off : ℕ)
    (u : UsedAt s off bs) (here : (list i).stack_ptr ≡ h.head + off + 8)
    → has_stack (list i) ≡ true
    → Frees list
        (i + 1)
        k
        (one-Freed h bs r s off u (list i).stack_ptr here).after
        (coalesce (freed_blocks h bs r s off u (list i).stack_ptr here))
    → Frees list i (suc k) h bs
Frees-first list i k h bs r s off u here on (after, ends, g) =
    let ptr = (list i).stack_ptr in
    let f = one-Freed h bs r s off u ptr here in
    let counted : used_count g.blocks + (1 + stack_count list (i + 1) k) ≡ used_count bs =
      omega (arith, g.fewer, one-fewer h bs r s off u ptr here) in
    rw (on, f.ends)
      (
        after,
        ends,
        record {
          blocks = g.blocks;
          represents = g.represents;
          same_head = g.same_head ∙ f.same_head;
          fewer = ap (λ n. used_count g.blocks + n) (stack_count-first list i k on) ∙ counted;
          others = λ n x v away.
              let head : h.head + x + 8 ≡ f.after.head + x + 8 = omega (arith, f.same_head) in
              let ne : x ≢ off = λ e.
                away i (omega arith) (omega arith) (has_stack-HasStack (list i) on)
                  (here ∙ omega (arith, e)) in
              let w = survives h bs r s off u ptr here n x v ne in
              let (kept, same) =
                g.others n x (coalesce-UsedAt w)
                  λ c lo hi z e. away c (omega (arith, lo)) (omega (arith, hi)) z (e ∙ sym head) in
              (
                kept,
                λ p lo hi.
                    same p (omega (arith, lo, head)) (omega (arith, hi, head))
                    ∙ survives-data h bs r s off u ptr here n x p w (omega (arith, lo))
                        (omega (arith, hi)),
              );
        },
      )

pub free_stacks-Frees :
    (k : ℕ) (list : ℕ → Task) (i : ℕ) (h : Heap) (bs : List Block)
    → Represents h bs
    → Owned list i k h bs
    → Frees list i k h bs
free_stacks-Frees zero list i h bs r o = (
  h,
  refl,
  record {
    blocks = bs;
    represents = r;
    same_head = refl;
    fewer = omega arith;
    others = λ n x v away. (v, λ p lo hi. refl);
  },
)
free_stacks-Frees (suc k) list i h bs r o = elim (Bool-cases (has_stack (list i))) [
  | inr off ↦
      Frees-skip list i k h bs off
        (free_stacks-Frees k list (i + 1) h bs r (Owned-rest list i k h bs o))
  | inl on ↦
      let first = has_stack-HasStack (list i) on in
      let (s, off, u, here) = o.stacks i (omega arith) (omega arith) first in
      let f = one-Freed h bs r s off u (list i).stack_ptr here in
      Frees-first list i k h bs r s off u here on (
        free_stacks-Frees k list (i + 1) f.after
          (coalesce (freed_blocks h bs r s off u (list i).stack_ptr here)) f.represents
          (Owned-freed list i k h bs r s off u here first o))
]
