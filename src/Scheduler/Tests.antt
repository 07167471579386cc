-- ===== src/Scheduler/Tests.antt =====
-- The scheduler at boot, and the theorems at it.
use new_attempt.Scheduler.Liveness.{scheduler_ticks, scheduler_ticks_run}
use new_attempt.Base.{
  suc, [], ◌∷◌, ◌++◌, ◌<◌, arith, ◌+◌, set, List, count, find_index, refl, replicate, some, true, ℕ,
  ◌≡◌,
}
use new_attempt.Scheduler.{
  due, finished, started, cleaned, run_slot, run_loop, scheduler_tick, Bus, task_at, pos, slot_free,
  blank_task, scheduler_remove_task, added, named, max_tasks, scheduler_add_task, Scheduler,
}
use new_attempt.Scheduler.Valid.{
  scheduler_remove_task-IsValid, scheduler_add_task-IsValid, IsValid, live,
}
use new_attempt.CString.{strncpy_k, same_name, codes}
use new_attempt.EventBus.{blank_event}

abbrev static : Scheduler
static = record {
  task_table = replicate max_tasks blank_task;
  task_count_val = pos 0;
  sched_tick = 0;
}

static-IsValid : IsValid static
unfolding live count
static-IsValid = record { slots = refl; counted = refl }

abbrev idle : List ℕ
idle = codes "idle"

with_idle : Scheduler
with_idle = (scheduler_add_task static (some idle) 7 10).1

idle_at : find_index (named (some idle)) with_idle.task_table ≡ some 0
unfolding with_idle scheduler_add_task find_index named same_name strncpy_k added slot_free
idle_at = refl

idle_live : live (task_at with_idle 0) ≡ true
unfolding with_idle scheduler_add_task find_index live added slot_free
idle_live = refl

scheduler_remove_task-IsValid_example : IsValid (scheduler_remove_task with_idle (some idle)).1
unfolding with_idle
scheduler_remove_task-IsValid_example =
    scheduler_remove_task-IsValid (some idle) 0
      (scheduler_add_task-IsValid (some idle) 7 10 static-IsValid) idle_at idle_live

-- Tasks that only log their calls.
abbrev logging : ℕ → Scheduler × Bus × List ℕ → Scheduler × Bus × List ℕ
logging f (s, b, l) = (s, b, l ++ (f ∷ []))

abbrev idle_bus : Bus
idle_bus = record {
  handlers = replicate 32 (replicate 8 0);
  queue = replicate 64 blank_event;
  q_head = 0;
  q_tail = 0;
  q_count = 0;
}

abbrev busy_table : Scheduler
busy_table = record {
  task_table = set (replicate max_tasks blank_task) 2 (added blank_task (some idle) 7 0);
  task_count_val = pos 1;
  sched_tick = 41;
}

ran : (scheduler_tick logging 0 (busy_table, idle_bus, [])).2 ≡ 7 ∷ []
unfolding scheduler_tick run_loop run_slot started finished due cleaned added
ran = refl

-- A task of period 10 that ran last at tick 0.
abbrev slow_table : Scheduler
slow_table = record {
  task_table = set (replicate max_tasks blank_task) 2 (added blank_task (some idle) 7 10);
  task_count_val = pos 1;
  sched_tick = 3;
}

scheduler_ticks_run_example :
    (k : ℕ) × (k < 7)
    × ((task_at
          (scheduler_ticks logging (λ i. i) (suc k) 0 (slow_table, idle_bus, [])).0
          2).last_run
        ≡ 3 + k + 1)
    × ((task_at
          (scheduler_ticks logging (λ i. i) (suc k) 0 (slow_table, idle_bus, [])).0
          2).tick_count
        ≡ 1)
    × (u : List ℕ) × (v : List ℕ) × ((scheduler_ticks logging
          (λ i. i)
          (suc k)
          0
          (slow_table, idle_bus, [])).2
        ≡ (scheduler_ticks logging (λ i. i) k 0 (slow_table, idle_bus, [])).2 ++ (u ++ (7 ∷ v)))
unfolding added
scheduler_ticks_run_example =
    scheduler_ticks_run logging (λ f st. refl) (λ l. l) (λ f st. refl) (λ i. i) 7 0 2
      (slow_table, idle_bus, []) refl (omega arith) refl (omega arith) (omega arith) (omega arith)
      (omega arith)
