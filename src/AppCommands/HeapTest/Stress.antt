-- ===== src/AppCommands/HeapTest/Stress.antt =====
-- The mode `stress` of `cmd_heap_test_handler` of app/app_commands.c.
use stm32_cli_os.Prelude.{
  ℕ, zero, suc, ◌+◌, ◌-◌, ◌%◌, Option, none, some, [], ◌∷◌, leb, ◌==◌, if◌then◌else◌, ◌>>=◌, put,
}
use stm32_cli_os.Utils.{memset}
use stm32_cli_os.Utils.Strings.{codes}
use stm32_cli_os.Allocator.{null}
use stm32_cli_os.Allocator.Report.{Status, ok, err}
use stm32_cli_os.Stm32Alloc.{stm32_allocator_malloc, stm32_allocator_check_integrity}
use stm32_cli_os.Cli.Printf.{number}
use stm32_cli_os.AppCommands.{App, say, on_cpu, mini_rand}
use stm32_cli_os.AppCommands.HeapTest.Patterns.{memory, set_memory, test_ok}
use stm32_cli_os.AppCommands.HeapTest.Frag.{Pointers, free_at}

abbrev pub stress_max_ptrs : ℕ
stress_max_ptrs = 32

pub record Stress : Type 0 where
  pub app : App
  pub ptrs : Pointers
  pub alloc_count : ℕ

-- The search for an empty slot, with the rounds left.
unfoldable pub empty_slot : ℕ → Pointers → ℕ → Option ℕ
empty_slot zero ptrs k = none
empty_slot (suc r) ptrs k =
    let rest = empty_slot r ptrs (k + 1) in if ptrs k == null then some k else rest

-- The search for a used slot: `slot` is the last one found.
unfoldable pub used_slot : ℕ → Pointers → ℕ → Option ℕ → App → Option ℕ × App
used_slot zero ptrs k slot a = (slot, a)
used_slot (suc r) ptrs k slot a =
    let (random, a') = mini_rand a in
    let empty = ptrs k == null in
    let rest =
      used_slot r ptrs (k + 1) (if empty then slot else some k) (if empty then a else a') in
    if empty then rest else if random % 3 == 0 then (some k, a') else rest

-- A block in a slot; its memory is touched where there is one.
abbrev pub place : Stress → ℕ → ℕ → ℕ × App → Stress
place s slot sz (ptr, a) =
    let ptrs' = put s.ptrs slot ptr in
    if ptr == null then record s { app = a; ptrs = ptrs' } else record {
      app = set_memory a (memset (memory a) ptr 85 sz);
      ptrs = ptrs';
      alloc_count = s.alloc_count + 1;
    }

abbrev pub allocate : Stress → Option ℕ → Option Stress
allocate s none = some s
allocate s (some slot) =
    let (random, a) = mini_rand s.app in
    let sz = random % 128 + 8 in
    on_cpu (stm32_allocator_malloc sz) a >>= λ result. some (place s slot sz result)

abbrev pub free_chosen : Stress → Option ℕ × App → Option Stress
free_chosen s (none, a) = some (record s { app = a })
free_chosen s (some slot, a) = free_at (s.ptrs slot) a >>= λ a'.
    some (record { app = a'; ptrs = put s.ptrs slot null; alloc_count = s.alloc_count - 1 })

-- `action`: 0 to allocate, 1 to free.
abbrev pub pick : ℕ → ℕ → ℕ
pick random alloc_count =
    if leb stress_max_ptrs alloc_count then 1 else if alloc_count == 0 then 0 else random % 2

unfoldable pub stress_step : Stress → Option Stress
stress_step s =
    let (random, a) = mini_rand s.app in
    let s' = record s { app = a } in
    if pick random s.alloc_count == 0
    then allocate s' (empty_slot stress_max_ptrs s'.ptrs 0)
    else free_chosen s' (used_slot stress_max_ptrs s'.ptrs 0 none a)

-- The check in every tenth round: `none` where the handler returns.
abbrev pub checked : ℕ → Stress → Status × App → Option Stress × App
checked i s (ok, a) = let a' = say (codes ".") [] a in (some (record s { app = a' }), a')
checked i s (err, a) =
    (none, say (codes "[FAIL] Heap corrupted at iteration %d\r\n") (number i ∷ []) a)

abbrev pub periodic : ℕ → Stress → Option (Option Stress × App)
periodic i s =
    if i % 10 == 0
    then (on_cpu stm32_allocator_check_integrity s.app >>= λ result. some (checked i s result))
    else some (some s, s.app)

abbrev pub continue :
    (Stress → Option (Option Stress × App)) → Option Stress × App → Option (Option Stress × App)
continue next (none, a) = some (none, a)
continue next (some s, a) = next s

-- The loop of 100 rounds, with the rounds left.
unfoldable pub stress_loop : ℕ → ℕ → Stress → Option (Option Stress × App)
stress_loop zero i s = some (some s, s.app)
stress_loop (suc k) i s = stress_step s >>= λ s'. periodic i s' >>= continue (stress_loop k (i + 1))

-- The loop that frees what is left.
unfoldable pub cleanup_loop : ℕ → ℕ → Pointers → App → Option App
cleanup_loop zero i ptrs a = some a
cleanup_loop (suc k) i ptrs a =
    (if ptrs i == null then some a else free_at (ptrs i) a) >>= cleanup_loop k (i + 1) ptrs

abbrev pub finish : Option Stress × App → Option (Status × App)
finish (none, a) = some (err, a)
finish (some s, a) =
    cleanup_loop stress_max_ptrs 0 s.ptrs (say (codes "\r\nCleaning up...\r\n") [] a) >>= λ a1.
    on_cpu stm32_allocator_check_integrity a1 >>= λ (status, a2).
    test_ok (codes "Final integrity check failed") status a2
      λ a3. some (ok, say (codes "[PASS] Stress test survived.\r\n") [] a3)

unfoldable pub heap_test_stress : App → Option (Status × App)
heap_test_stress a =
    stress_loop 100 0 (record {
      app = say (codes "Starting stress test (Loop 100 times)...\r\n") [] a;
      ptrs = λ _. null;
      alloc_count = 0;
    })
    >>= finish
