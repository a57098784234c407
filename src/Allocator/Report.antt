-- ===== src/Allocator/Report.antt =====
-- The queries of core/allocator.c: statistics and the integrity check.
pub mod Integrity
pub mod Stats
use stm32_cli_os.Prelude.{
  ℕ, zero, suc, ◌%◌, Bool, true, false, ◌&&◌, ◌||◌, not, Option, none, some, ltb, leb, ◌==◌,
  if◌then◌else◌, add32, sub32,
}
use stm32_cli_os.Memory.{Mem}
use stm32_cli_os.Allocator.{Heap, null, get_size, get_free, size_and_free, next, fuel}

-- The `int` results 0 and -1.
pub data Status : Type 0 where
  ok err : Status

pub record HeapStats : Type 0 where
  pub total_size : ℕ
  pub used_size : ℕ
  pub free_size : ℕ
  pub largest_free_block : ℕ
  pub allocated_blocks : ℕ
  pub free_blocks : ℕ

-- The loop of `allocator_get_largest_free_block` over `largest_block` and `largest_free`.
unfoldable pub largest_loop : ℕ → Mem → ℕ → ℕ → ℕ → Option ℕ
largest_loop zero m curr largest_block largest_free = none
largest_loop (suc k) m curr largest_block largest_free =
    let size = get_size (size_and_free m curr) in
    let better = get_free (size_and_free m curr) && ltb largest_free size in
    let rest =
      largest_loop k m (next m curr) (if better then curr else largest_block)
        (if better then size else largest_free) in
    if curr == null then some largest_block else rest

unfoldable pub allocator_get_largest_free_block : Heap → Option ℕ
allocator_get_largest_free_block h = largest_loop (fuel h) h.mem h.head null 0

abbrev pub no_stats : HeapStats
no_stats = record {
  total_size = 0;
  used_size = 0;
  free_size = 0;
  largest_free_block = 0;
  allocated_blocks = 0;
  free_blocks = 0;
}

abbrev pub stats_with : Heap → ℕ → HeapStats
stats_with h largest = record {
  total_size = h.mem_capacity;
  free_size = h.free_mem;
  used_size = sub32 h.mem_capacity h.free_mem;
  allocated_blocks = h.allocated_blocks;
  free_blocks = h.free_blocks;
  largest_free_block = if largest == null then 0 else get_size (size_and_free h.mem largest);
}

-- With `stats` a valid pointer: the return value and what `*stats` holds.
unfoldable pub allocator_get_stats : Heap → Option (Status × HeapStats)
allocator_get_stats h =
    if h.head == null then some (err, no_stats) else elim (allocator_get_largest_free_block h) [
      | none ↦ none
      | some largest ↦ some (ok, stats_with h largest)
    ]

unfoldable pub allocator_get_free_size : Heap → ℕ
allocator_get_free_size h = h.free_mem

unfoldable pub allocator_get_fragment_count : Heap → ℕ
allocator_get_fragment_count h = h.free_blocks

-- The comparisons of `allocator_check_integrity` behind its loop.
abbrev pub counters_match : Heap → ℕ → ℕ → Status
counters_match h calculated_free allocated_size =
    if not (calculated_free == h.free_mem)
    then err
    else if not (allocated_size == h.allocated_mem)
    then err
    else ok

unfoldable pub integrity_loop : ℕ → Heap → ℕ → ℕ → ℕ → Option Status
integrity_loop zero h curr calculated_free allocated_size = none
integrity_loop (suc k) h curr calculated_free allocated_size =
    let size = get_size (size_and_free h.mem curr) in
    let is_free = get_free (size_and_free h.mem curr) in
    let heap_end = add32 h.head h.mem_capacity in
    let rest =
      integrity_loop k h (next h.mem curr)
        (if is_free then add32 calculated_free size else calculated_free)
        (if is_free then allocated_size else add32 allocated_size size) in
    if curr == null
    then some (counters_match h calculated_free allocated_size)
    else if ltb curr h.head || leb heap_end curr
    then some err
    else if ltb h.mem_capacity size
    then some err
    else rest

unfoldable pub allocator_check_integrity : Heap → Option Status
allocator_check_integrity h =
    if h.head == null then some err else integrity_loop (fuel h) h h.head 0 0
