-- ===== src/Allocator/Report/Integrity.antt =====
-- What `allocator_check_integrity` accepts.
use stm32_cli_os.Prelude.{
  ℕ, zero, suc, ◌+◌, ◌<◌, ◌≤◌, ◌≡◌, ◌↔◌, refl, ap₂, subst, ◌∙◌, Bool, true, false, not, ◌==◌, some,
  List, [], ◌∷◌, arith, All, length, add32, u32, le→ltb, lt→leb, ==_ne, if◌then◌else◌,
}
use stm32_cli_os.Allocator.{Heap, null, fuel}
use stm32_cli_os.Allocator.Blocks.{Block, span, free_bytes, used_bytes}
use stm32_cli_os.Allocator.Chain.{link, Chain, IsAligned, Represents, length-le-span}
use stm32_cli_os.Allocator.Find.{get_size-tag, get_free-tag}
use stm32_cli_os.Allocator.Malloc.{link-head}
use stm32_cli_os.Allocator.Report.{
  ok, err, integrity_loop, counters_match, allocator_check_integrity,
}

sums-step :
    (f u s rest : ℕ) (free : Bool) (fs us : ℕ)
    → f + u + (8 + s + rest) < u32
    → let f' = if free then add32 f s else f in
      let u' = if free then u else add32 u s in
      (f' + fs ≡ f + ((if free then s else 0) + fs))
      × (u' + us ≡ u + ((if free then 0 else s) + us))
      × (f' + u' + rest < u32)
sums-step f u s rest true fs us h = (omega arith, omega arith, omega arith)
sums-step f u s rest false fs us h = (omega arith, omega arith, omega arith)

integrity_loop-sums :
    (k : ℕ) (h : Heap) (a f u : ℕ) (bs : List Block)
    → length bs < k
    → 0 < h.head
    → h.head ≤ a
    → a + span bs ≡ h.head + h.mem_capacity
    → h.head + h.mem_capacity < u32
    → f + u + span bs < u32
    → All IsAligned bs
    → Chain h.mem a bs
    → integrity_loop k h (link a bs) f u
      ≡ some (counters_match h (f + free_bytes bs) (u + used_bytes bs))
unfolding integrity_loop
integrity_loop-sums zero h a f u bs lt pos from top mem small al c = elim lt [ ]
integrity_loop-sums (suc k) h a f u [] lt pos from top mem small al c =
    let e₁ : f + 0 ≡ f = omega arith in let e₂ : u + 0 ≡ u = omega arith in rw (e₁, e₂)
integrity_loop-sums (suc k) h a f u (b ∷ bs) lt pos from top mem small al c =
    let x : ℕ = a + 8 + b.size in
    let f' : ℕ = if b.is_free then add32 f b.size else f in
    let u' : ℕ = if b.is_free then u else add32 u b.size in
    let live = ==_ne a null (omega arith) in
    let end : add32 h.head h.mem_capacity ≡ h.head + h.mem_capacity = omega arith in
    let low = le→ltb a h.head from in
    let high = lt→leb (h.head + h.mem_capacity) a (omega arith) in
    let fits = le→ltb h.mem_capacity b.size (omega arith) in
    let (ef, eu, small') =
      sums-step f u b.size (span bs) b.is_free (free_bytes bs) (used_bytes bs) small in
    let rest =
      integrity_loop-sums k h x f' u' bs (omega arith) pos (omega arith) (omega arith) mem small'
        al.1 c.2 in
    rw
      (live, end, low, high, c.0, c.1, get_size-tag b al.0, get_free-tag b al.0, fits, rest, ef, eu)

matches :
    (f u x y : ℕ)
    → (some (if not (x == f) then err else if not (y == u) then err else ok) ≡ some ok)
      ↔ ((f ≡ x) × (u ≡ y))
matches f u x y = (λ e. ground arith, λ e. ground arith)

module _ {h : Heap} {bs : List Block} (r : Represents h bs) where
  pub integrity-counters :
      (f u : ℕ)
      → let h' = record h { free_mem = f; allocated_mem = u } in
        allocator_check_integrity h' ≡ some (counters_match h' (free_bytes bs) (used_bytes bs))
  unfolding allocator_check_integrity
  integrity-counters f u =
      let h' = record h { free_mem = f; allocated_mem = u } in
      let live = ==_ne h.head null (omega (arith, r.head_pos)) in
      let loop =
        integrity_loop-sums (fuel h) h' h.head 0 0 bs (omega (arith, length-le-span bs, r.capacity))
          r.head_pos (omega arith) (omega (arith, r.capacity)) r.in_memory
          (omega (arith, r.capacity, r.in_memory)) r.aligned r.chain in
      let start =
        subst
          (λ a.
            integrity_loop (fuel h) h' a 0 0
            ≡ some (counters_match h' (0 + free_bytes bs) (0 + used_bytes bs)))
          (link-head h.head bs r.nonempty) loop in
      let ef : 0 + free_bytes bs ≡ free_bytes bs = omega arith in
      let eu : 0 + used_bytes bs ≡ used_bytes bs = omega arith in
      rw live (start ∙ ap₂ (λ x y. some (counters_match h' x y)) ef eu)

  -- With its byte counters replaced by any two numbers, a represented heap passes
  -- `allocator_check_integrity` exactly when the two numbers are the free and the used bytes.
  pub integrity_iff :
      (f u : ℕ)
      → (allocator_check_integrity (record h { free_mem = f; allocated_mem = u }) ≡ some ok)
        ↔ ((f ≡ h.free_mem) × (u ≡ h.allocated_mem))
  integrity_iff f u = rw (integrity-counters f u, r.free_mem, r.allocated_mem) (matches f u _ _)

  pub integrity_ok : allocator_check_integrity h ≡ some ok
  integrity_ok = (integrity_iff h.free_mem h.allocated_mem).1 (refl, refl)
