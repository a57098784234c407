-- ===== src/Allocator/Resize.antt =====
-- `allocator_realloc` of core/allocator.c.
pub mod Shrink
pub mod Carve
pub mod Move
pub mod Realloc
use stm32_cli_os.Prelude.{ℕ, ◌+◌, Option, none, some, leb, ◌==◌, if◌then◌else◌, add32, sub32}
use stm32_cli_os.Utils.{memcpy}
use stm32_cli_os.Allocator.{
  Heap, null, header_size, align_size, get_size, align, size_and_free, split_mem, allocator_malloc,
  allocator_free,
}

-- Case 1, shrinking or same size: the rest is split off if it holds a header and a word.
unfoldable pub shrink : Heap → ℕ → ℕ → ℕ → Heap
shrink h block curr_size aligned_new =
    let remaining_size = sub32 (sub32 curr_size aligned_new) header_size in
    if leb (add32 (add32 aligned_new header_size) align_size) curr_size
    then record h {
      mem = split_mem h.mem block curr_size aligned_new;
      free_mem = add32 h.free_mem remaining_size;
      allocated_mem = sub32 h.allocated_mem (add32 remaining_size header_size);
      free_blocks = add32 h.free_blocks 1;
    }
    else h

-- What follows the `allocator_malloc` of case 2.
unfoldable pub move : ℕ → ℕ → ℕ × Heap → Option (ℕ × Heap)
move ptr curr_size (new_ptr, h) =
    if new_ptr == null
    then some (null, h)
    else elim (allocator_free (record h { mem = memcpy h.mem new_ptr ptr curr_size }) ptr) [
      | none ↦ none
      | some h' ↦ some (new_ptr, h')
    ]

unfoldable pub grow : Heap → ℕ → ℕ → ℕ → Option (ℕ × Heap)
grow h ptr curr_size new_size = elim (allocator_malloc h new_size) [
  | none ↦ none
  | some result ↦ move ptr curr_size result
]

unfoldable pub allocator_realloc : Heap → ℕ → ℕ → Option (ℕ × Heap)
allocator_realloc h ptr new_size =
    let block = sub32 ptr header_size in
    let curr_size = get_size (size_and_free h.mem block) in
    let aligned_new = align new_size in
    if ptr == null
    then allocator_malloc h new_size
    else if new_size == 0
    then elim (allocator_free h ptr) [ none ↦ none | some h' ↦ some (null, h') ]
    else if leb aligned_new curr_size
    then some (ptr, shrink h block curr_size aligned_new)
    else grow h ptr curr_size new_size
