-- ===== src/Allocator/Init.antt =====
-- `allocator_init`: one free block, and the two ways in which its counters can start out wrong.
use stm32_cli_os.Prelude.{
  ℕ, zero, suc, ◌+◌, ◌-◌, ◌%◌, ◌<◌, ◌≤◌, ◌≡◌, ◌≢◌, refl, ◌∙◌, inl, some, [], ◌∷◌, arith, add32,
  sub32, u32, le→ltb, ==_ne, lt→leb,
}
use stm32_cli_os.Memory.{load32, store32, load32-store32_self, load32-store32_ne}
use stm32_cli_os.Allocator.{Heap, null, align, allocator_init}
use stm32_cli_os.Allocator.Blocks.{free_block}
use stm32_cli_os.Allocator.Chain.{Represents}
use stm32_cli_os.Allocator.Report.{err, counters_match, integrity_loop, allocator_check_integrity}
use stm32_cli_os.Allocator.Report.Integrity.{integrity-counters}

-- The heap after a call with an aligned pool, with the word arithmetic done.
fresh : Heap → ℕ → ℕ → Heap
fresh h pool size = record h {
  head = pool;
  mem_capacity = size;
  free_mem = size - 8;
  mem = store32 (store32 h.mem pool (size - 8 - (size - 8) % 2 + 1)) (pool + 4) null;
  free_blocks = 1;
  allocated_blocks = 0;
}

module _ (h : Heap) (pool size : ℕ) (pos : 0 < pool) (top : pool + size < u32)
    (room : 11 ≤ size) where
  init-fresh : allocator_init h pool size ≡ fresh h (align pool) (size - (align pool - pool))
  unfolding allocator_init fresh
  init-fresh =
      let d : sub32 (align pool) pool ≡ align pool - pool = omega arith in
      let low : align pool - pool ≤ 3 = omega arith in
      let e : sub32 size (align pool - pool) ≡ size - (align pool - pool) = omega arith in
      let s : ℕ = size - (align pool - pool) in
      let e' : sub32 s 8 ≡ s - 8 = omega arith in rw (d, e, le→ltb s 8 (omega arith), e')

fresh-Represents :
    (h : Heap) (pool size : ℕ)
    → 0 < pool
    → pool % 4 ≡ 0
    → pool + size < u32
    → 8 ≤ size
    → size % 4 ≡ 0
    → h.allocated_mem ≡ 0
    → Represents (fresh h pool size) (free_block (size - 8) ∷ [])
unfolding fresh
fresh-Represents h pool size pos al top room al' zero_used =
    let w : ℕ = size - 8 - (size - 8) % 2 + 1 in
    record {
      head_pos = pos;
      head_aligned = al;
      capacity = omega arith;
      in_memory = top;
      nonempty = omega arith;
      aligned = (omega arith, tt);
      chain = (
        load32-store32_ne (store32 h.mem pool w) (pool + 4) pool null (inl (omega arith))
            ∙ (load32-store32_self h.mem pool w (omega arith) ∙ omega arith),
        load32-store32_self (store32 h.mem pool w) (pool + 4) null (omega arith),
        tt,
      );
      free_mem = omega arith;
      allocated_mem = zero_used;
      free_blocks = refl;
      allocated_blocks = refl;
    }

module _ (h : Heap) (pool size : ℕ) (pos : 0 < pool) (top : pool + size < u32)
    (room : 11 ≤ size) where
  -- For a pool at a non-zero address, below the end of memory, of at least 11 bytes and with a
  -- word-aligned end, and where no bytes were counted as used, `allocator_init` leaves a heap that
  -- represents one free block of what is left behind the alignment and a header.
  pub init-Represents :
      (pool + size) % 4 ≡ 0
      → h.allocated_mem ≡ 0
      → Represents (allocator_init h pool size) (free_block (pool + size - align pool - 8) ∷ [])
  init-Represents al zero_used =
      let e : size - (align pool - pool) ≡ pool + size - align pool = omega arith in
      rw (init-fresh h pool size pos top room, e)
        (fresh-Represents h (align pool) (pool + size - align pool) (omega arith) (omega arith)
          (omega arith) (omega arith) (omega arith) zero_used)

  -- `allocator_init` keeps `allocated_mem`: for such a pool, if the counter was not 0 before,
  -- `allocator_check_integrity` fails right after.
  pub init-stale :
      (pool + size) % 4 ≡ 0
      → h.allocated_mem ≢ 0
      → allocator_check_integrity (allocator_init h pool size) ≡ some err
  unfolding fresh
  init-stale al stale =
      let a : ℕ = align pool in
      let s : ℕ = size - (align pool - pool) in
      let h₀ = record h { allocated_mem = 0 } in
      let r =
        fresh-Represents h₀ a s (omega arith) (omega arith) (omega arith) (omega arith)
          (omega arith) refl in
      rw (init-fresh h pool size pos top room)
        (integrity-counters r (s - 8) h.allocated_mem ∙ ground arith)

integrity_loop-end :
    (k : ℕ) (h : Heap) (f u : ℕ) → 0 < k → integrity_loop k h null f u ≡ some (counters_match h f u)
unfolding integrity_loop
integrity_loop-end zero h f u pos = elim pos [ ]
integrity_loop-end (suc k) h f u pos = refl

fresh-odd :
    (h : Heap) (pool size : ℕ)
    → 0 < pool
    → pool + size < u32
    → 8 ≤ size
    → size % 2 ≡ 1
    → allocator_check_integrity (fresh h pool size) ≡ some err
unfolding fresh allocator_check_integrity integrity_loop
fresh-odd h pool size pos top room odd =
    let w : ℕ = size - 8 - (size - 8) % 2 + 1 in
    let e₁ : load32 (store32 (store32 h.mem pool w) (pool + 4) null) pool ≡ size - 8 =
      load32-store32_ne (store32 h.mem pool w) (pool + 4) pool null (inl (omega arith))
      ∙ (load32-store32_self h.mem pool w (omega arith) ∙ omega arith) in
    let e₂ : load32 (store32 (store32 h.mem pool w) (pool + 4) null) (pool + 4) ≡ null =
      load32-store32_self (store32 h.mem pool w) (pool + 4) null (omega arith) in
    let e₃ : size - 8 - (size - 8) % 2 ≡ size - 9 = omega arith in
    let e₄ : (size - 8) % 2 ≡ 1 = omega arith in
    let end : add32 pool size ≡ pool + size = omega arith in
    let live = ==_ne pool null (omega arith) in
    let low = le→ltb pool pool (omega arith) in
    let high = lt→leb (pool + size) pool (omega arith) in
    let fits = le→ltb size (size - 9) (omega arith) in
    let sum : add32 0 (size - 9) ≡ size - 9 = omega arith in
    let differs = ==_ne (size - 9) (size - 8) (omega arith) in
    rw (
      live,
      end,
      low,
      high,
      e₁,
      e₂,
      e₃,
      e₄,
      fits,
      sum,
      integrity_loop-end size _ _ _ (omega arith),
      differs,
    )

module _ (h : Heap) (pool size : ℕ) (pos : 0 < pool) (top : pool + size < u32)
    (room : 11 ≤ size) where
  -- For a pool of at least 11 bytes at a non-zero address, below the end of memory, whose end is
  -- odd, `allocator_check_integrity` fails right after `allocator_init`.
  pub init-odd :
      (pool + size) % 2 ≡ 1 → allocator_check_integrity (allocator_init h pool size) ≡ some err
  init-odd odd = rw (init-fresh h pool size pos top room) (
      fresh-odd h (align pool) (size - (align pool - pool)) (omega arith) (omega arith)
        (omega arith) (omega arith))
