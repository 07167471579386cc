-- ===== src/Scheduler.antt =====
-- kernel/scheduler.h and kernel/scheduler.c: the table of cooperative tasks. A task function is its
-- address, 0 for NULL.
pub mod Valid
pub mod Tick
pub mod Calls
pub mod Liveness
mod Tests
use new_attempt.Base.{
  Bool, List, false, find_index, get_or, if◌then◌else◌, leb, map, none, not, replicate, set, some,
  suc, true, zero, ℕ, ◌%◌, ◌&&◌, ◌+◌, ◌-◌, ◌==◌, ◌^◌, ◌||◌,
}
use new_attempt.Base.Int.{incr, decr, at_least, pos, ℤ}
use new_attempt.CString.{strncpy_k, same_name, CharPtr}
use new_attempt.EventBus.{topic_scheduler_switch, eventbus_publish, Bus}
use new_attempt.Status.{noslot, ok, notfound, err, Status}

abbrev pub max_tasks : ℕ
max_tasks = 16

abbrev pub task_name_len : ℕ
task_name_len = 16

-- `task_state_t`
pub data TaskState : Type 0 where
  empty ready running blocked zombie : TaskState

-- `task_t`
pub record Task : Type 0 where
  pub name : List ℕ
  pub fn : ℕ
  pub state : TaskState
  pub tick_count : ℕ
  pub period : ℕ
  pub last_run : ℕ

-- The static state of scheduler.c.
pub record Scheduler : Type 0 where
  pub task_table : List Task
  pub task_count_val : ℤ
  pub sched_tick : ℕ

abbrev pub blank_task : Task
blank_task = record {
  name = replicate task_name_len 0;
  fn = 0;
  state = empty;
  tick_count = 0;
  period = 0;
  last_run = 0;
}

abbrev pub task_at : Scheduler → ℕ → Task
task_at s i = get_or s.task_table i blank_task

abbrev pub is_empty : TaskState → Bool
is_empty empty = true
is_empty _ = false

abbrev pub is_ready : TaskState → Bool
is_ready ready = true
is_ready _ = false

unfoldable pub slot_free : Task → Bool
slot_free t = is_empty t.state

-- The test of the loop in `scheduler_remove_task`.
unfoldable pub named : CharPtr → Task → Bool
named name t = not (is_empty t.state) && same_name task_name_len t.name name

unfoldable pub scheduler_init : Scheduler → Scheduler
scheduler_init s = record {
  task_table = map (λ (t : Task). record t { state = empty; tick_count = 0 }) s.task_table;
  task_count_val = pos 0;
  sched_tick = 0;
}

-- The task that `scheduler_add_task` leaves in a free slot.
unfoldable pub added : Task → CharPtr → ℕ → ℕ → Task
added t name fn period = record {
  name = strncpy_k t.name name task_name_len;
  fn = fn;
  state = ready;
  tick_count = 0;
  period = period;
  last_run = 0;
}

abbrev pub no_name : CharPtr → Bool
no_name none = true
no_name (some s) = false

unfoldable pub scheduler_add_task : Scheduler → CharPtr → ℕ → ℕ → Status × Scheduler
scheduler_add_task s name fn period =
    if no_name name || fn == 0
    then (err, s)
    else if at_least max_tasks s.task_count_val
    then (noslot, s)
    else elim (find_index slot_free s.task_table) [
      | none ↦ (noslot, s)
      | some i ↦ (
        ok,
        record s {
          task_table = set s.task_table i (added (task_at s i) name fn period);
          task_count_val = incr s.task_count_val;
        },
      )
    ]

unfoldable pub removed : Task → Task
removed t = record t { state = zombie }

unfoldable pub scheduler_remove_task : Scheduler → CharPtr → Status × Scheduler
scheduler_remove_task s name = elim (find_index (named name) s.task_table) [
  | none ↦ (notfound, s)
  | some i ↦ (
    ok,
    record s {
      task_table = set s.task_table i (removed (task_at s i));
      task_count_val = decr s.task_count_val;
    },
  )
]

unfoldable pub scheduler_task_count : Scheduler → ℤ
scheduler_task_count s = s.task_count_val

abbrev pub cleaned_state : TaskState → TaskState
cleaned_state zombie = empty
cleaned_state x = x

-- The body of the loop that cleans up.
unfoldable pub cleaned : Task → Task
cleaned t = record t { state = cleaned_state t.state }

-- `period == 0 || (sched_tick - last_run) >= period` on 32 bits
unfoldable pub due : ℕ → Task → Bool
due now t = t.period == 0 || leb t.period ((now + 2 ^ 32 - t.last_run) % 2 ^ 32)

-- A slot before and after the call of its task.
unfoldable pub started : ℕ → Scheduler → Scheduler
started i s = record s {
  task_table =
      set s.task_table i (record (task_at s i) { state = running; last_run = s.sched_tick });
}

unfoldable pub finished : ℕ → Scheduler → Scheduler
finished i s = record s {
  task_table = set s.task_table i (record (task_at s i) {
    tick_count = ((task_at s i).tick_count + 1) % 2 ^ 32;
    state = ready;
  });
}

-- A task is code of another component: it may change the scheduler, the bus and the rest of the
-- kernel's state `W`.
module _ {W : Type 0} (run : ℕ → Scheduler × Bus × W → Scheduler × Bus × W) where
  -- One round of the loop that runs the tasks.
  unfoldable pub run_slot : ℕ → Scheduler × Bus × W → Scheduler × Bus × W
  run_slot i (s, b, w) =
      let t = task_at s i in
      let (s1, b1, w1) = run t.fn (started i s, b, w) in
      if is_ready t.state && due s.sched_tick t then (finished i s1, b1, w1) else (s, b, w)

  unfoldable pub run_loop : ℕ → ℕ → Scheduler × Bus × W → Scheduler × Bus × W
  run_loop zero i st = st
  run_loop (suc n) i st = run_loop n (i + 1) (run_slot i st)

  -- `tick` is `g_tick_count`, which the event at the end carries.
  unfoldable pub scheduler_tick : ℕ → Scheduler × Bus × W → Scheduler × Bus × W
  unfolding run_loop
  scheduler_tick tick (s, b, w) =
      let s0 : Scheduler = record s {
        sched_tick = (s.sched_tick + 1) % 2 ^ 32;
        task_table = map cleaned s.task_table;
      } in
      let (s1, b1, w1) = run_loop max_tasks 0 (s0, b, w) in
      (s1, (eventbus_publish tick b1 topic_scheduler_switch s1.sched_tick).1, w1)
