-- ===== src/Allocator.antt =====
-- core/allocator.c on a 32-bit target: a list of blocks, each an 8-byte header (size with the free
-- flag in bit 0, then the address of the next block) before its data. A function that updates the
-- static variables returns the new heap; every loop over the list takes fuel, and `none` is fuel
-- that ran out. `s & ~1` is `s - s % 2`, and `|` with a flag is `+` where bit 0 is clear.
pub mod Blocks
pub mod Chain
pub mod Find
pub mod Split
pub mod Data
pub mod Replace
pub mod Malloc
pub mod Merge
pub mod Free
pub mod Coalesce
pub mod RoundTrip
pub mod Resize
pub mod Locate
pub mod InPlace
pub mod OneFreed
pub mod Report
pub mod Init
pub mod Reach
mod Tests
pub mod Take
use stm32_cli_os.Prelude.{
  ℕ, zero, suc, ◌+◌, ◌-◌, ◌%◌, Bool, ◌&&◌, ◌||◌, Option, none, some, ltb, leb, ◌==◌, if◌then◌else◌,
  not, add32, sub32,
}
use stm32_cli_os.Memory.{Mem, load32, store32}
use stm32_cli_os.Utils.{memcpy}

abbrev pub null : ℕ
null = 0

-- `sizeof(Block)` and `ALIGN_SIZE`.
abbrev pub header_size : ℕ
header_size = 8

abbrev pub align_size : ℕ
align_size = 4

-- `GET_SIZE`, `GET_FREE`, `ALIGN` and `UPDATE_SIZE_AND_FREE`.
abbrev pub get_size : ℕ → ℕ
get_size s = s - s % 2

abbrev pub get_free : ℕ → Bool
get_free s = s % 2 == 1

abbrev pub align : ℕ → ℕ
align size = let up : ℕ = add32 size 3 in up - up % 4

abbrev pub update_size_and_free : ℕ → ℕ → ℕ
update_size_and_free size free = size - size % 2 + free

-- The static variables, and the memory that they point into.
pub record Heap : Type 0 where
  pub mem : Mem
  pub head : ℕ
  pub mem_capacity : ℕ
  pub free_mem : ℕ
  pub allocated_mem : ℕ
  pub free_blocks : ℕ
  pub allocated_blocks : ℕ

-- `curr->size_and_free` and `curr->next`.
abbrev pub size_and_free : Mem → ℕ → ℕ
size_and_free m curr = load32 m curr

abbrev pub next : Mem → ℕ → ℕ
next m curr = load32 m (curr + 4)

-- Blocks do not overlap, so a list has at most `mem_capacity / 8` of them.
abbrev pub fuel : Heap → ℕ
fuel h = suc h.mem_capacity

unfoldable pub allocator_init : Heap → ℕ → ℕ → Heap
allocator_init h pool size =
    let aligned_addr = align pool in
    let size' = sub32 size (sub32 aligned_addr pool) in
    let usable_size = sub32 size' header_size in
    if ltb size' header_size then h else record h {
      head = aligned_addr;
      mem_capacity = size';
      free_mem = usable_size;
      mem =
          store32 (store32 h.mem aligned_addr (update_size_and_free usable_size 1))
            (aligned_addr + 4) null;
      free_blocks = 1;
      allocated_blocks = 0;
    }

-- The header writes of a split: `curr` keeps `aligned_size`, the rest becomes a free block.
abbrev pub split_mem : Mem → ℕ → ℕ → ℕ → Mem
split_mem m curr curr_size aligned_size =
    let next_block = add32 (add32 curr header_size) aligned_size in
    let remaining_size = sub32 (sub32 curr_size aligned_size) header_size in
    let m₁ = store32 m next_block (update_size_and_free remaining_size 1) in
    let m₂ = store32 m₁ (next_block + 4) (next m₁ curr) in
    let m₃ = store32 m₂ (curr + 4) next_block in
    store32 m₃ curr (update_size_and_free aligned_size 0)

-- The body of the `if` in the loop of `allocator_malloc`.
unfoldable pub take_block : Heap → ℕ → ℕ → ℕ × Heap
take_block h curr aligned_size =
    let curr_size = get_size (size_and_free h.mem curr) in
    if leb (add32 (add32 aligned_size header_size) align_size) curr_size
    then (
      add32 curr header_size,
      record h {
        mem = split_mem h.mem curr curr_size aligned_size;
        free_mem = sub32 h.free_mem (add32 aligned_size header_size);
        allocated_mem = add32 h.allocated_mem aligned_size;
        allocated_blocks = add32 h.allocated_blocks 1;
      },
    )
    else (
      add32 curr header_size,
      record h {
        mem = store32 h.mem curr (update_size_and_free curr_size 0);
        free_mem = sub32 h.free_mem curr_size;
        allocated_mem = add32 h.allocated_mem curr_size;
        free_blocks = sub32 h.free_blocks 1;
        allocated_blocks = add32 h.allocated_blocks 1;
      },
    )

-- `GET_FREE(curr->size_and_free) && curr_size >= aligned_size`.
abbrev pub block_fits : Mem → ℕ → ℕ → Bool
block_fits m curr aligned_size =
    get_free (size_and_free m curr) && leb aligned_size (get_size (size_and_free m curr))

unfoldable pub malloc_loop : ℕ → ℕ → Heap → ℕ → Option (ℕ × Heap)
malloc_loop zero aligned_size h curr = none
malloc_loop (suc k) aligned_size h curr =
    let rest = malloc_loop k aligned_size h (next h.mem curr) in
    if curr == null
    then some (null, h)
    else if block_fits h.mem curr aligned_size
    then some (take_block h curr aligned_size)
    else rest

unfoldable pub allocator_malloc : Heap → ℕ → Option (ℕ × Heap)
allocator_malloc h size =
    if size == 0 || ltb h.mem_capacity size
    then some (null, h)
    else malloc_loop (fuel h) (align size) h h.head

-- The body of the `if` in the loop of `allocator_free`: `curr` takes in its successor.
unfoldable pub merge : Heap → ℕ → Heap
merge h curr =
    let nxt = next h.mem curr in
    let merged_size =
      add32 (add32 (get_size (size_and_free h.mem curr)) header_size)
        (get_size (size_and_free h.mem nxt)) in
    let m₁ = store32 h.mem curr (update_size_and_free merged_size 1) in
    record h {
      mem = store32 m₁ (curr + 4) (next m₁ (next m₁ curr));
      free_mem = add32 h.free_mem header_size;
      free_blocks = sub32 h.free_blocks 1;
    }

unfoldable pub merge_loop : ℕ → Heap → ℕ → Option Heap
merge_loop zero h curr = none
merge_loop (suc k) h curr =
    let nxt = next h.mem curr in
    let again = merge_loop k (merge h curr) curr in
    let rest = merge_loop k h nxt in
    if curr == null || nxt == null
    then some h
    else if get_free (size_and_free h.mem curr) && get_free (size_and_free h.mem nxt)
    then again
    else rest

-- The part of `allocator_free` before the loop.
unfoldable pub release : Heap → ℕ → Heap
release h block_to_free =
    let m =
      store32 h.mem block_to_free (update_size_and_free (size_and_free h.mem block_to_free) 1) in
    let block_mem = get_size (size_and_free m block_to_free) in
    record h {
      mem = m;
      free_mem = add32 h.free_mem block_mem;
      allocated_mem = sub32 h.allocated_mem block_mem;
      free_blocks = add32 h.free_blocks 1;
      allocated_blocks = sub32 h.allocated_blocks 1;
    }

unfoldable pub allocator_free : Heap → ℕ → Option Heap
allocator_free h ptr =
    let h' = release h (sub32 ptr header_size) in
    if ptr == null then some h else merge_loop (fuel h') h' h'.head
