-- ===== src/Allocator/Reach.antt =====
-- Every state that calls of the allocator can lead to: any sequence of calls, in any order, by
-- clients that free and resize only blocks in use and write only to the data of such blocks.
use stm32_cli_os.Prelude.{
  ℕ, ◌+◌, ◌≤◌, ◌<◌, ◌≡◌, refl, sym, subst, ◌∙◌, ◌⊎◌, inl, inr, some, List, ◌∷◌, ◌++◌, arith,
  Option-cases, some_pair, some_value, leb, leb→le, leb→lt, Bool-cases, zero, suc,
}
use stm32_cli_os.Memory.{Mem}
use stm32_cli_os.Allocator.{Heap, null, align, allocator_malloc, allocator_free}
use stm32_cli_os.Allocator.Blocks.{Block, used_block, free_block, span, carve, coalesce}
use stm32_cli_os.Allocator.Chain.{Represents}
use stm32_cli_os.Allocator.Coalesce.{IsCoalesced, coalesce-IsCoalesced}
use stm32_cli_os.Allocator.Free.{free_refines}
use stm32_cli_os.Allocator.Malloc.{request, Outcome, malloc_refines}
use stm32_cli_os.Allocator.Report.{ok, allocator_check_integrity}
use stm32_cli_os.Allocator.Report.Integrity.{integrity_ok}
use stm32_cli_os.Allocator.Resize.{allocator_realloc}
use stm32_cli_os.Allocator.Resize.Carve.{Represents-data}
use stm32_cli_os.Allocator.Resize.Realloc.{realloc-zero, realloc-shrink, realloc-grow, Grows}

-- `ptr` is the address of the data of a block in use.
pub record InUse (h : Heap) (ptr : ℕ) : Type 0 where
  pub pre : List Block
  pub size : ℕ
  pub post : List Block
  pub blocks : Represents h (pre ++ (used_block size ∷ post))
  pub address : ptr ≡ h.head + span pre + 8

pub data Step (h : Heap) (h' : Heap) : Type 0 where
  malloc : (size p : ℕ) → allocator_malloc h size ≡ some (p, h') → Step h h'
  free : (ptr : ℕ) → InUse h ptr → allocator_free h ptr ≡ some h' → Step h h'
  free_null : allocator_free h null ≡ some h' → Step h h'
  realloc : (ptr size p : ℕ) → InUse h ptr → allocator_realloc h ptr size ≡ some (p, h') → Step h h'
  realloc_null : (size p : ℕ) → allocator_realloc h null size ≡ some (p, h') → Step h h'
  write :
      (ptr : ℕ) (u : InUse h ptr) (m : Mem)
      → ((p : ℕ) → (p < ptr) ⊎ (ptr + u.size ≤ p) → m p ≡ h.mem p)
      → h' ≡ record h { mem = m }
      → Step h h'

pub data Reach (h : Heap) : Heap → Type 0 where
  here : Reach h h
  next : {h₁ h₂ : Heap} → Reach h h₁ → Step h₁ h₂ → Reach h h₂

-- The heap holds some list of blocks.
abbrev pub IsHeap : Heap → Type 0
IsHeap h = (bs : List Block) × Represents h bs

module _ {h : Heap} {bs : List Block} (r : Represents h bs) where
  malloc-IsHeap : (size p : ℕ) {h' : Heap} → allocator_malloc h size ≡ some (p, h') → IsHeap h'
  malloc-IsHeap size p e = elim (Option-cases (request h bs size)) [
    | inl nothing ↦
        let call = subst (Outcome r size) nothing (malloc_refines r size) in
        let same = (some_pair (sym e ∙ call)).1 in (bs, rw (← same) r)
    | inr ((off, bs'), found) ↦
        let (q, h₁, call, a) = subst (Outcome r size) found (malloc_refines r size) in
        let same = (some_pair (sym e ∙ call)).1 in (bs', rw (← same) a.after)
  ]

module _ {h : Heap} {ptr : ℕ} (u : InUse h ptr) where
  -- After `allocator_free` of a block in use, the heap represents a list in which no two neighbours
  -- are free.
  pub free-IsCoalesced :
      {h' : Heap}
      → allocator_free h ptr ≡ some h'
      → (bs : List Block) × Represents h' bs × IsCoalesced bs
  free-IsCoalesced e =
      let f = free_refines h u.size u.pre u.post u.blocks ptr u.address in
      let same = some_value (sym f.ends ∙ e) in
      (
        coalesce (u.pre ++ (free_block u.size ∷ u.post)),
        rw (← same) f.represents,
        coalesce-IsCoalesced (u.pre ++ (free_block u.size ∷ u.post)),
      )

  grow-IsHeap :
      (size p : ℕ) {h' : Heap}
      → u.size < align size
      → allocator_realloc h ptr size ≡ some (p, h')
      → IsHeap h'
  grow-IsHeap size p more e =
      let bs = u.pre ++ (used_block u.size ∷ u.post) in
      let grows = realloc-grow h u.pre u.size u.post u.blocks ptr u.address size more in
      elim (Option-cases (request h bs size)) [
        | inl nothing ↦
            let call =
              subst (Grows h u.pre u.size u.post u.blocks ptr u.address size) nothing grows in
            let same = (some_pair (sym e ∙ call)).1 in (bs, rw (← same) u.blocks)
        | inr ((off, bs'), found) ↦
            let m = subst (Grows h u.pre u.size u.post u.blocks ptr u.address size) found grows in
            let same = (some_pair (sym e ∙ m.ends)).1 in
            (coalesce (m.before ++ (free_block u.size ∷ m.behind)), rw (← same) m.represents)
      ]

  realloc-IsHeap :
      (size p : ℕ) {h' : Heap} → allocator_realloc h ptr size ≡ some (p, h') → IsHeap h'
  realloc-IsHeap zero p e =
      let f = free_refines h u.size u.pre u.post u.blocks ptr u.address in
      let call = realloc-zero h u.pre u.size u.post u.blocks ptr u.address in
      let same = (some_pair (sym e ∙ call)).1 in
      (coalesce (u.pre ++ (free_block u.size ∷ u.post)), rw (← same) f.represents)
  realloc-IsHeap (suc size) p e = elim (Bool-cases (leb (align (suc size)) u.size)) [
    | inl fit ↦
        let (h₁, call, s) =
          realloc-shrink h u.pre u.size u.post u.blocks ptr u.address (suc size) (omega arith)
            (leb→le _ _ fit) in
        let same = (some_pair (sym e ∙ call)).1 in
        (u.pre ++ (carve (align (suc size)) u.size ++ u.post), rw (← same) s.after)
    | inr more ↦ grow-IsHeap (suc size) p (leb→lt _ _ more) e
  ]

allocator_free-null : (h : Heap) → allocator_free h null ≡ some h
unfolding allocator_free
allocator_free-null h = refl

allocator_realloc-null :
    (h : Heap) (size : ℕ) → allocator_realloc h null size ≡ allocator_malloc h size
unfolding allocator_realloc
allocator_realloc-null h size = refl

Step-IsHeap : {h h' : Heap} → Step h h' → IsHeap h → IsHeap h'
Step-IsHeap (malloc size p e) i = malloc-IsHeap i.1 size p e
Step-IsHeap (free ptr u e) i = let f = free-IsCoalesced u e in (f.0, f.1)
Step-IsHeap {h} (free_null e) i =
    let same = some_value (sym (allocator_free-null h) ∙ e) in (i.0, rw (← same) i.1)
Step-IsHeap (realloc ptr size p u e) i = realloc-IsHeap u size p e
Step-IsHeap {h} (realloc_null size p e) i =
    malloc-IsHeap i.1 size p (sym (allocator_realloc-null h size) ∙ e)
Step-IsHeap {h} (write ptr u m out e) i =
    let bs = u.pre ++ (used_block u.size ∷ u.post) in
    let r =
      Represents-data h u.pre (used_block u.size) u.post m u.blocks
        λ p o. out p (omega (arith, u.address)) in
    (bs, rw e r)

pub Reach-IsHeap : {h h' : Heap} → IsHeap h → Reach h h' → IsHeap h'
Reach-IsHeap i here = i
Reach-IsHeap i (next r s) = Step-IsHeap s (Reach-IsHeap i r)

-- From a heap that represents a list of blocks, any sequence of `allocator_malloc`,
-- `allocator_free` and `allocator_realloc` calls on blocks in use or `NULL`, and of writes to the
-- data of blocks in use, leads to a heap that passes `allocator_check_integrity`.
pub Reach-integrity :
    {h h' : Heap} {bs : List Block}
    → Represents h bs
    → Reach h h'
    → allocator_check_integrity h' ≡ some ok
Reach-integrity {bs} r steps = let (bs', r') = Reach-IsHeap (bs, r) steps in integrity_ok r'
