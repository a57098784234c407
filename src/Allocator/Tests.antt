-- ===== src/Allocator/Tests.antt =====
-- Runs of the allocator on small pools, and the theorems at concrete inputs.
use stm32_cli_os.Prelude.{
  ℕ, zero, suc, ◌≤◌, ◌<◌, ◌≢◌, ◌+◌, ◌-◌, ◌>>=◌, ◌≡◌, refl, false, none, some, List, [], ◌∷◌, ◌↔◌,
  arith,
}
use stm32_cli_os.Memory.{load32, store32}
use stm32_cli_os.Allocator.{Heap, null, align, allocator_init, allocator_malloc, allocator_free}
use stm32_cli_os.Allocator.{take_block, malloc_loop, merge, merge_loop, release}
use stm32_cli_os.Scheduler.{System, no_task, task_ready, task_zombie}
use stm32_cli_os.Scheduler.Collect.{task_garbage_collection}
use stm32_cli_os.Scheduler.Collected.{Collected, collect-Collected}
use stm32_cli_os.Scheduler.Stacks.{HasStack, Owned}
use stm32_cli_os.Scheduler.Create.{Image, task_create}
use stm32_cli_os.Scheduler.Created.{Created, create-Created}
use stm32_cli_os.AppCommands.{App}
use stm32_cli_os.AppCommands.HeapTest.Basic.{heap_test_basic}
use stm32_cli_os.AppCommands.HeapTest.Tested.{Tested, heap_test_basic-Tested}
use stm32_cli_os.Allocator.Blocks.{Block, used_block, free_block, first_fit}
use stm32_cli_os.Allocator.Chain.{Represents}
use stm32_cli_os.Allocator.Free.{Freed, free_refines}
use stm32_cli_os.Allocator.Init.{init-Represents, init-stale, init-odd}
use stm32_cli_os.Allocator.Malloc.{request, Outcome, malloc_refines}
use stm32_cli_os.Allocator.Report.{
  ok, err, HeapStats, allocator_get_stats, allocator_check_integrity,
}
use stm32_cli_os.Allocator.Report.Integrity.{integrity_iff}
use stm32_cli_os.Allocator.Report.Stats.{Reports, stats_report}
use stm32_cli_os.Allocator.Resize.{allocator_realloc}
use stm32_cli_os.Allocator.Resize.Realloc.{realloc-shrink, realloc-grow, Grows}
use stm32_cli_os.Allocator.Resize.Shrink.{Shrinks}
use stm32_cli_os.Allocator.Coalesce.{IsCoalesced}
use stm32_cli_os.Allocator.Reach.{InUse, here, next, write, Reach-integrity, free-IsCoalesced}
use stm32_cli_os.Allocator.RoundTrip.{Restored, malloc-free}

-- The static variables at reset.
abbrev reset : Heap
reset = record {
  mem = λ _. 0;
  head = null;
  mem_capacity = 0;
  free_mem = 0;
  allocated_mem = 0;
  free_blocks = 0;
  allocated_blocks = 0;
}

-- A used block of 16 bytes at 4096, then a free one of 216 bytes.
abbrev busy : Heap
busy = record {
  mem = store32 (store32 (store32 (store32 (λ _. 0) 4096 16) 4100 4120) 4120 217) 4124 0;
  head = 4096;
  mem_capacity = 248;
  free_mem = 216;
  allocated_mem = 16;
  free_blocks = 1;
  allocated_blocks = 1;
}

abbrev busy_blocks : List Block
busy_blocks = used_block 16 ∷ free_block 216 ∷ []

busy-Represents : Represents busy busy_blocks
unfolding load32 store32
busy-Represents = record {
  head_pos = omega arith;
  head_aligned = refl;
  capacity = refl;
  in_memory = omega arith;
  nonempty = omega arith;
  aligned = (refl, (refl, tt));
  chain = (refl, refl, (refl, refl, tt));
  free_mem = refl;
  allocated_mem = refl;
  free_blocks = refl;
  allocated_blocks = refl;
}

-- Two blocks come out of a fresh pool one behind the other, and joining restores it.
two_blocks :
    (do
      (p, h) ← allocator_malloc (allocator_init reset 4096 256) 10
      (q, h) ← allocator_malloc h 5
      h ← allocator_free h p
      h ← allocator_free h q
      some (p ∷ q ∷ h.free_mem ∷ h.free_blocks ∷ []))
    ≡ some (4104 ∷ 4124 ∷ 248 ∷ 1 ∷ [])
unfolding allocator_init allocator_malloc malloc_loop take_block allocator_free release merge_loop
    merge load32 store32
two_blocks = refl

-- The search is first-fit: the block of 40 bytes in front is carved, not the exact one behind it.
not_best_fit :
    (do
      (a, h) ← allocator_malloc (allocator_init reset 4096 512) 40
      (b, h) ← allocator_malloc h 8
      (c, h) ← allocator_malloc h 16
      (d, h) ← allocator_malloc h 8
      h ← allocator_free h a
      h ← allocator_free h c
      (e, h) ← allocator_malloc h 16
      some (a ∷ c ∷ e ∷ []))
    ≡ some (4104 ∷ 4168 ∷ 4104 ∷ [])
unfolding allocator_init allocator_malloc malloc_loop take_block allocator_free release merge_loop
    merge load32 store32
not_best_fit = refl

init-Represents_example :
    Represents (allocator_init reset 4096 256) (free_block (4096 + 256 - align 4096 - 8) ∷ [])
init-Represents_example =
    init-Represents reset 4096 256 (omega arith) (omega arith) (omega arith) refl refl

init-stale_example : allocator_check_integrity (allocator_init busy 4096 256) ≡ some err
init-stale_example =
    init-stale busy 4096 256 (omega arith) (omega arith) (omega arith) refl (omega arith)

init-odd_example : allocator_check_integrity (allocator_init reset 4096 255) ≡ some err
init-odd_example = init-odd reset 4096 255 (omega arith) (omega arith) (omega arith) refl

malloc_refines_example : Outcome busy-Represents 10 (request busy busy_blocks 10)
malloc_refines_example = malloc_refines busy-Represents 10

free_refines_example : Freed busy [] 16 (free_block 216 ∷ []) (allocator_free busy 4104)
free_refines_example = free_refines busy 16 [] (free_block 216 ∷ []) busy-Represents 4104 refl

malloc-free_example : Restored busy busy_blocks 10
unfolding first_fit
malloc-free_example = malloc-free 10 busy-Represents (refl, tt) refl

integrity_iff_example :
    (allocator_check_integrity (record busy { free_mem = 216; allocated_mem = 20 }) ≡ some ok)
    ↔ ((216 ≡ busy.free_mem) × (20 ≡ busy.allocated_mem))
integrity_iff_example = integrity_iff busy-Represents 216 20

stats_report_example :
    (s : HeapStats) × (allocator_get_stats busy ≡ some (ok, s)) × Reports busy_blocks s
stats_report_example = stats_report busy-Represents

realloc-shrink_example :
    (h : Heap) × (allocator_realloc busy 4104 3 ≡ some (4104, h))
    × Shrinks busy [] 16 (align 3) (free_block 216 ∷ []) h
realloc-shrink_example =
    realloc-shrink busy [] 16 (free_block 216 ∷ []) busy-Represents 4104 refl 3 (omega arith)
      (omega arith)

realloc-grow_example :
    Grows busy [] 16
      (free_block 216 ∷ [])
      busy-Represents
      4104
      refl
      20
      (request busy busy_blocks 20)
realloc-grow_example =
    realloc-grow busy [] 16 (free_block 216 ∷ []) busy-Represents 4104 refl 20 (omega arith)

in_use : InUse busy 4104
in_use = record {
  pre = [];
  size = 16;
  post = free_block 216 ∷ [];
  blocks = busy-Represents;
  address = refl;
}

Reach-integrity_example : allocator_check_integrity (record busy { mem = busy.mem }) ≡ some ok
Reach-integrity_example =
    Reach-integrity busy-Represents (next here (write 4104 in_use busy.mem (λ p o. refl) refl))

abbrev busy_freed : Freed busy [] 16 (free_block 216 ∷ []) (allocator_free busy 4104)
busy_freed = free_refines busy 16 [] (free_block 216 ∷ []) busy-Represents 4104 refl

free-IsCoalesced_example : (bs : List Block) × Represents busy_freed.after bs × IsCoalesced bs
free-IsCoalesced_example = free-IsCoalesced in_use busy_freed.ends

-- The shell on this heap.
abbrev shell : App
shell = record {
  cli = record {
    commands = λ _. record { name = none; help = []; handler = 0 };
    cmd_count = 0;
    line_buffer = λ _. 0;
    line_pos = 0;
    getc = 134218241;
    puts = 134218497;
    prompt = [];
    output = [];
  };
  system = record {
    heap = busy;
    task_list = λ _. no_task;
    task_current = none;
    task_next = none;
    idle_task = none;
    task_count = 0;
    task_current_index = 0;
    next_task_id = 0;
    systick_ticks = 0;
    pend_sv = false;
  };
  basepri = 32;
  prng_state = 1234;
  aircr = 0;
}

heap_test_basic-Tested_example : Tested shell 40 (heap_test_basic 40 shell)
heap_test_basic-Tested_example =
    heap_test_basic-Tested shell busy-Represents 40 (omega arith) (omega arith)

abbrev image : Image
image = record { task_exit = 134219777; task_idle_function = 134218881 }

create-Created_example :
    Created image
      (shell.system)
      134218001
      536870912
      100
      (task_create image (shell.system) 134218001 536870912 100)
create-Created_example =
    create-Created image (shell.system) 134218001 536870912 100 (omega arith) (omega arith)
      (omega arith) busy-Represents

-- A table of a ready task and a zombie whose stack is the block of 16 bytes.
abbrev dying : System
dying = record (shell.system) {
  task_list = λ i. elim i [
    | zero ↦ record no_task { state = task_ready; task_id = 1 }
    | suc _ ↦ record no_task { state = task_zombie; stack_ptr = 4104; stack_size = 16 }
  ];
  task_current = some 0;
  task_count = 2;
}

dying-Owned : Owned (dying.task_list) 0 2 busy busy_blocks
dying-Owned = record {
  stacks = λ c lo hi z. (
    16,
    0,
    record { before = []; after = free_block 216 ∷ []; blocks = refl; offset = refl },
    stack c z,
  );
  apart = λ c d lo lt hi zc zd. two c d lo lt hi zc;
}
  where
    stack : (c : ℕ) → HasStack (dying.task_list c) → (dying.task_list c).stack_ptr ≡ 4104
    stack zero z = absurd (z.1 refl)
    stack (suc c) z = refl

    two :
        (c d : ℕ)
        → 0 ≤ c
        → c < d
        → d < 2
        → HasStack (dying.task_list c)
        → (dying.task_list c).stack_ptr ≢ (dying.task_list d).stack_ptr
    two zero d lo lt hi z = absurd (z.1 refl)
    two (suc c) d lo lt hi z = absurd (omega (arith, lt, hi))

collect-Collected_example : Collected dying busy_blocks (task_garbage_collection dying)
collect-Collected_example = collect-Collected dying busy_blocks busy-Represents dying-Owned
