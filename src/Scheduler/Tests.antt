-- ===== src/Scheduler/Tests.antt =====
-- The scheduler on a small table, and the theorems at concrete inputs.
use stm32_cli_os.Prelude.{
  ℕ, ◌+◌, ◌%◌, ◌<◌, ◌≡◌, ◌≢◌, refl, ◌>>=◌, ltb, put, true, false, some, [], ◌∷◌, arith, u32,
}
use stm32_cli_os.Allocator.{null}
use stm32_cli_os.Systick.{sys_tick_handler, delay_waits, delay_waits-ltb}
use stm32_cli_os.Scheduler.{
  runnable, System, Task, task_unused, task_ready, task_running, task_blocked, task_zombie, no_task,
  schedule_next_task, round_robin, choose, pend_sv_handler,
}
use stm32_cli_os.Scheduler.Control.{task_delete, task_unblock, task_sleep_ticks}
use stm32_cli_os.Scheduler.Collect.{task_garbage_collection, compact_loop, reap, move_task}
use stm32_cli_os.Scheduler.Delete.{Deleted, delete-Deleted}
use stm32_cli_os.Scheduler.Create.{Image, place_task, free_slot}
use stm32_cli_os.Scheduler.Frame.{Framed, place-Framed}
use stm32_cli_os.Scheduler.Fair.{Reached, fairness}
use stm32_cli_os.Scheduler.Chosen.{Chosen, schedule-Chosen}
use stm32_cli_os.Scheduler.Stranded.{unblock-runnable}
use stm32_cli_os.Scheduler.Sleep.{sleep-wakes, sleep_wraps, sleep_lost}
use stm32_cli_os.Scheduler.Ticks.{ticks_later}

-- Slot 0 runs, slots 1 and 2 are ready, and slot 3 is the idle task.
abbrev ready_task : ℕ → Task
ready_task id = record no_task { state = task_ready; task_id = id; stack_ptr = 8192 }

abbrev table : ℕ → Task
table =
    put
      (put
        (put (put (λ _. no_task) 0 (record (ready_task 1) { state = task_running })) 1
          (ready_task 2))
        2 (ready_task 3))
      3 (record (ready_task 4) { is_idle = true })

abbrev system_at : ℕ → System
system_at ticks = record {
  heap = record {
    mem = λ _. 0;
    head = null;
    mem_capacity = 0;
    free_mem = 0;
    allocated_mem = 0;
    free_blocks = 0;
    allocated_blocks = 0;
  };
  task_list = table;
  task_current = some 0;
  task_next = some 0;
  idle_task = some 3;
  task_count = 4;
  task_current_index = 0;
  next_task_id = 4;
  systick_ticks = ticks;
  pend_sv = false;
}

-- One switch goes from slot 0 to slot 1.
one_switch : (pend_sv_handler (system_at 7) 4096).task_current ≡ some 1
unfolding pend_sv_handler schedule_next_task choose round_robin
one_switch = refl

schedule-Chosen_example : Chosen (system_at 7) 0 (schedule_next_task (system_at 7))
schedule-Chosen_example = schedule-Chosen (system_at 7) 0 refl (omega arith)

fairness_example : Reached (system_at 7) 2 (4096 ∷ 4096 ∷ 4096 ∷ 4096 ∷ [])
fairness_example =
    fairness (system_at 7) 0 2 refl refl (omega arith) (omega arith) refl
      (4096 ∷ 4096 ∷ 4096 ∷ 4096 ∷ []) (omega arith)

running-used : task_running ≢ task_unused
running-used e = absurd (cc e)

sleep-wakes_example :
    (s' : System) × (task_sleep_ticks (system_at 7) 20 ≡ some s')
    × ((n : ℕ) → n < 20 → ((ticks_later n s').task_list 0).state ≡ task_blocked)
    × (((ticks_later 20 s').task_list 0).state ≡ task_ready)
    × (((ticks_later 20 s').task_list 0).sleep_until_tick ≡ 0)
sleep-wakes_example =
    sleep-wakes (system_at 7) 0 20 refl (omega arith) running-used refl (omega arith) (omega arith)

sleep_wraps_example :
    (s' : System) × (task_sleep_ticks (system_at 4294967290) 20 ≡ some s')
    × (((sys_tick_handler s').task_list 0).state ≡ task_ready)
sleep_wraps_example =
    sleep_wraps (system_at 4294967290) 0 20 refl (omega arith) running-used refl (omega arith)
      (omega arith) (omega arith) (omega arith)

sleep_lost_example :
    (s' : System) × (task_sleep_ticks (system_at 4294967276) 20 ≡ some s')
    × ((n : ℕ) → ((ticks_later n s').task_list 0).state ≡ task_blocked)
sleep_lost_example =
    sleep_lost (system_at 4294967276) 0 20 refl (omega arith) running-used refl (omega arith)
      (omega arith)

delay_waits-ltb_example : delay_waits 4294967290 20 ((4294967290 + 19) % u32) ≡ ltb 19 20
delay_waits-ltb_example = delay_waits-ltb 4294967290 19 20 (omega arith) (omega arith)

-- Slot 1 is a zombie without a stack: slots 2 and 3 move down, and so does the idle task.
abbrev with_zombie : System
with_zombie =
    let s = system_at 7 in
    record s { task_list = put s.task_list 1 (record no_task { state = task_zombie }) }

collected_count :
    (task_garbage_collection with_zombie >>= λ s.
    some (s.task_count ∷ (s.task_list 1).task_id ∷ []))
    ≡ some (3 ∷ 3 ∷ [])
unfolding task_garbage_collection compact_loop reap move_task
collected_count = refl

-- Slot 2 sleeps until tick 500.
abbrev with_sleeper : System
with_sleeper =
    let s = system_at 7 in
    record s {
      task_list =
          put s.task_list 2
            (record (ready_task 3) { state = task_blocked; sleep_until_tick = 500 });
    }

unblock-runnable_example :
    (((ticks_later 1000 (task_unblock with_sleeper (some 2))).task_list 2).state ≡ task_ready)
    × (runnable ((ticks_later 1000 (task_unblock with_sleeper (some 2))).task_list 2) ≡ false)
unblock-runnable_example = unblock-runnable with_sleeper 2 (omega arith) refl (omega arith) 1000

delete-Deleted_example : Deleted (system_at 7) 3 (task_delete (system_at 7) 3)
delete-Deleted_example = delete-Deleted (system_at 7) 3

abbrev image : Image
image = record { task_exit = 134219777; task_idle_function = 134218881 }

abbrev created : System
created = (place_task image (system_at 7) 134218001 536870912 512 8192).1

place-Framed_example :
    Framed image
      (system_at 7)
      134218001
      536870912
      512
      8192
      created
      ((created.task_list (free_slot (system_at 7))).psp)
place-Framed_example =
    place-Framed image (system_at 7) 134218001 536870912 512 8192 (omega arith) (omega arith)
      (omega arith) refl refl (omega arith) (omega arith)
