-- ===== src/AppCommands/HeapTest/Tested.antt =====
-- The mode `basic` of the heap test of app/app_commands.c on a heap that represents a list of blocks.
use stm32_cli_os.Prelude.{
  ℕ, ◌+◌, ◌*◌, ◌%◌, ◌<◌, ◌≤◌, ◌≡◌, refl, ap, subst, ◌∙◌, ◌⊎◌, inl, inr, false, Option, some, List,
  [], ◌∷◌, ◌++◌, arith, u32, ◌==◌, ==_ne, leb, leb→le, leb→lt, Bool-cases, Option-cases,
}
use stm32_cli_os.Utils.Strings.{codes}
use stm32_cli_os.Cli.Printf.{number, string}
use stm32_cli_os.Allocator.{Heap, null, align, allocator_malloc}
use stm32_cli_os.Allocator.Blocks.{Block, used_block, free_block, span, coalesce}
use stm32_cli_os.Allocator.Chain.{Represents}
use stm32_cli_os.Allocator.Coalesce.{IsCoalesced, coalesce-IsCoalesced}
use stm32_cli_os.Allocator.Free.{free_refines}
use stm32_cli_os.Allocator.Malloc.{request, Outcome, malloc_refines}
use stm32_cli_os.Allocator.Reach.{InUse}
use stm32_cli_os.Allocator.Report.{Status, ok, err}
use stm32_cli_os.Allocator.Report.Integrity.{integrity_ok}
use stm32_cli_os.Allocator.Resize.{allocator_realloc}
use stm32_cli_os.Allocator.Resize.Carve.{carve-Carved, Represents-data}
use stm32_cli_os.Allocator.Resize.Realloc.{realloc-shrink, realloc-grow, Grows}
use stm32_cli_os.AppCommands.{App, say}
use stm32_cli_os.AppCommands.Calls.{
  with_heap, on_cpu-malloc, on_cpu-realloc, on_cpu-free, on_cpu-check,
}
use stm32_cli_os.AppCommands.HeapTest.Patterns.{memory, fill_pattern}
use stm32_cli_os.AppCommands.HeapTest.Filled.{
  fill_pattern-outside, fill_pattern-inside, verify_pattern-ok,
}
use stm32_cli_os.AppCommands.HeapTest.Basic.{heap_test_basic, fill, verify_filled, verify_moved}

-- The test ended with `PASS`, and no two neighbours of the heap are free.
pub record Passed (base : ℕ) (result : Option (Status × App)) : Type 0 where
  pub after : App
  pub ends : result ≡ some (ok, after)
  pub blocks : List Block
  pub heap : Represents after.system.heap blocks
  pub joined : IsCoalesced blocks
  pub basepri : after.basepri ≡ base

-- The test ended since there was no block for it; the heap is as before.
pub record NoMemory (a : App) (size : ℕ) (result : Option (Status × App)) : Type 0 where
  pub after : App
  pub ends : result ≡ some (err, after)
  pub call : allocator_malloc a.system.heap size ≡ some (null, a.system.heap)
  pub heap : after.system.heap ≡ a.system.heap
  pub basepri : after.basepri ≡ a.basepri

-- The test ended since its block could not grow; the block is still in use.
pub record Leaked (base : ℕ) (size : ℕ) (result : Option (Status × App)) : Type 0 where
  pub after : App
  pub ends : result ≡ some (err, after)
  pub ptr : ℕ
  pub call : allocator_realloc after.system.heap ptr (size * 2) ≡ some (null, after.system.heap)
  pub in_use : InUse after.system.heap ptr
  pub basepri : after.basepri ≡ base

abbrev pub Tested : App → ℕ → Option (Status × App) → Type 0
Tested a size result =
    NoMemory a size result ⊎ Leaked a.basepri size result ⊎ Passed a.basepri result

-- From the last comparison on.
module _ (size : ℕ) (a : App) (pre post : List Block) (n q : ℕ)
    (r : Represents a.system.heap (pre ++ (used_block n ∷ post)))
    (here : q ≡ a.system.heap.head + span pre + 8) where
  verify_moved-Passed : Passed a.basepri (verify_moved size q ok a)
  verify_moved-Passed =
      let f = free_refines a.system.heap n pre post r q here in
      let a5 = say (codes "5. Freeing memory...\r\n") [] a in
      rw
        (
          on_cpu-free a5 q f.after f.ends,
          on_cpu-check (with_heap a5 f.after) ok (integrity_ok f.represents),
        )
        (record {
          after = say (codes "[PASS] Basic test passed.\r\n") [] (with_heap a5 f.after);
          ends = refl;
          blocks = coalesce (pre ++ (free_block n ∷ post));
          heap = f.represents;
          joined = coalesce-IsCoalesced (pre ++ (free_block n ∷ post));
          basepri = refl;
        })

-- The filled block, before it is resized.
module _ (size : ℕ) (small : size < 2147483647) (positive : 0 < size) (a : App)
    (pre post : List Block) (n p : ℕ) (r : Represents a.system.heap (pre ++ (used_block n ∷ post)))
    (here : p ≡ a.system.heap.head + span pre + 8)
    (filled : (j : ℕ) → j < size → memory a (p + j) ≡ j % 256) where
  abbrev growing : App
  growing = say (codes "4. Reallocating to %u bytes (Growing)...\r\n") (number (size * 2) ∷ []) a

  double : size * 2 % u32 ≡ size * 2
  double = omega (arith, small)

  -- The resized block, with the same bytes.
  moved-Passed :
      (q : ℕ) (h : Heap) (pre' post' : List Block) (n' : ℕ)
      → allocator_realloc a.system.heap p (size * 2) ≡ some (q, h)
      → Represents h (pre' ++ (used_block n' ∷ post'))
      → q ≡ h.head + span pre' + 8
      → ((j : ℕ) → j < size → h.mem (q + j) ≡ j % 256)
      → Passed a.basepri (verify_filled size p ok a)
  moved-Passed q h pre' post' n' call r' here' same =
      let live : (q == null) ≡ false = ==_ne q null (omega (arith, here')) in
      rw
        (
          double,
          on_cpu-realloc growing p (size * 2) q h call,
          live,
          verify_pattern-ok h.mem q size same,
        )
        (verify_moved-Passed size (with_heap growing h) pre' post' n' q r' here')

  not_moved-Leaked :
      allocator_realloc a.system.heap p (size * 2) ≡ some (null, a.system.heap)
      → Leaked a.basepri size (verify_filled size p ok a)
  not_moved-Leaked call =
      rw (double, on_cpu-realloc growing p (size * 2) null a.system.heap call)
        (record {
          after =
              say (codes "[FAIL] %s\r\n") (string (some (codes "Realloc returned NULL")) ∷ [])
                (with_heap growing a.system.heap);
          ends = refl;
          ptr = p;
          call = call;
          in_use = record { pre = pre; size = n; post = post; blocks = r; address = here };
          basepri = refl;
        })

  shrunk-Passed : align (size * 2) ≤ n → Passed a.basepri (verify_filled size p ok a)
  shrunk-Passed fit =
      let (h, call, s) =
        realloc-shrink a.system.heap pre n post r p here (size * 2) (omega (arith, positive)) fit in
      let c = carve-Carved (align (size * 2)) n fit in
      let r' = subst (Represents h) (ap (λ l. pre ++ (l ++ post)) c.blocks) s.after in
      moved-Passed p h pre (c.rest ++ post) c.size call r' (omega (arith, here, s.same_head))
        λ j lt. s.kept (p + j) (omega (arith, here)) (omega (arith, here, lt)) ∙ filled j lt

  module _ (room : size ≤ n) where
    grown-Tested :
        n < align (size * 2)
        → Leaked a.basepri size (verify_filled size p ok a)
          ⊎ Passed a.basepri (verify_filled size p ok a)
    grown-Tested more =
        let bs = pre ++ (used_block n ∷ post) in
        let grows = realloc-grow a.system.heap pre n post r p here (size * 2) more in
        let Grow = Grows a.system.heap pre n post r p here (size * 2) in
        elim (Option-cases (request a.system.heap bs (size * 2))) [
          | inl nothing ↦ inl (not_moved-Leaked (subst Grow nothing grows))
          | inr ((off, bs'), found) ↦
              let m = subst Grow found grows in
              let u = m.in_use in
              let r' = subst (Represents m.after) u.blocks m.represents in
              inr (
                moved-Passed m.new_ptr m.after u.before u.after m.new_size m.ends r'
                  (omega (arith, m.address, m.same_head, u.offset))
                  λ j lt. m.copied j (omega (arith, room, lt)) ∙ filled j lt)
        ]

    verify_filled-Tested :
        Leaked a.basepri size (verify_filled size p ok a)
        ⊎ Passed a.basepri (verify_filled size p ok a)
    verify_filled-Tested = elim (Bool-cases (leb (align (size * 2)) n)) [
      | inl fit ↦ inr (shrunk-Passed (leb→le _ _ fit))
      | inr more ↦ grown-Tested (leb→lt _ _ more)
    ]

module _ (a : App) {bs : List Block} (r : Represents a.system.heap bs) (size : ℕ)
    (positive : 0 < size) (small : size < 2147483647) where
  abbrev starting : App
  starting = say (codes "1. Allocating %u bytes...\r\n") (number size ∷ []) a

  no_memory :
      allocator_malloc a.system.heap size ≡ some (null, a.system.heap)
      → NoMemory a size (heap_test_basic size a)
  unfolding heap_test_basic
  no_memory call = rw (on_cpu-malloc starting size null a.system.heap call) (record {
    after =
        say (codes "[FAIL] %s\r\n") (string (some (codes "Malloc returned NULL")) ∷ [])
          (with_heap starting a.system.heap);
    ends = refl;
    call = call;
    heap = refl;
    basepri = refl;
  })

  with_block :
      (p : ℕ) (h : Heap) (pre post : List Block) (n : ℕ)
      → allocator_malloc a.system.heap size ≡ some (p, h)
      → Represents h (pre ++ (used_block n ∷ post))
      → p ≡ h.head + span pre + 8
      → size ≤ n
      → Leaked a.basepri size (heap_test_basic size a) ⊎ Passed a.basepri (heap_test_basic size a)
  unfolding heap_test_basic
  with_block p h pre post n call r' here room =
      let live : (p == null) ≡ false = ==_ne p null (omega (arith, here)) in
      let m = fill_pattern h.mem p size in
      let filled = fill size p (with_heap starting h) in
      let r'' =
        Represents-data h pre (used_block n) post m r'
          λ q o. fill_pattern-outside h.mem p size q (omega (arith, o, here, room)) in
      let bytes = fill_pattern-inside h.mem p size in
      rw (on_cpu-malloc starting size p h call, live, verify_pattern-ok m p size bytes)
        (verify_filled-Tested size small positive filled pre post n p r'' here bytes room)

  -- In a heap that represents a list of blocks, for a size above 0 and below 2 ^ 31 - 1, the mode
  -- `basic` of `cmd_heap_test_handler` ends without a report of corruption: it fails with the heap
  -- unchanged where `malloc` returned `NULL`, it fails with its block still in use where `realloc`
  -- returned `NULL`, or it passes, and then the heap represents a list in which no two neighbours
  -- are free; `BASEPRI` is as before.
  pub heap_test_basic-Tested : Tested a size (heap_test_basic size a)
  heap_test_basic-Tested = elim (Option-cases (request a.system.heap bs size)) [
    | inl nothing ↦ inl (no_memory (subst (Outcome r size) nothing (malloc_refines r size)))
    | inr ((off, bs'), found) ↦
        let (p, h, call, al) = subst (Outcome r size) found (malloc_refines r size) in
        let c = carve-Carved (align size) al.size al.enough in
        let blocks = al.result ∙ ap (λ l. al.pre ++ (l ++ al.post)) c.blocks in
        inr (
          with_block p h al.pre (c.rest ++ al.post) c.size call
            (subst (Represents h) blocks al.after)
            (omega (arith, al.address, al.offset, al.same_head)) (omega (arith, c.enough, small)))
  ]
