-- ===== src/Scheduler/Tick.antt =====
-- One tick of kernel/scheduler.c, for tasks that leave the scheduler alone.
use new_attempt.Base.{
  get_or-map, Bool-cases, ap, arith, get_or-set_ne, get_or-set_self, if◌then◌else◌, inl, inr,
  length, length-map, length-set, map, refl, subst, suc, zero, ℕ, ◌%◌, ◌&&◌, ◌+◌, ◌<◌, ◌==◌, ◌^◌,
  ◌∙◌, ◌≡◌, ◌≢◌, ◌≤◌,
}
use new_attempt.Scheduler.{
  cleaned, max_tasks, blank_task, running, scheduler_tick, run_loop, run_slot, ready, due, Bus,
  task_at, started, is_ready, finished, Scheduler, Task,
}

-- A task after its turn at tick `now`.
unfoldable pub after_turn : ℕ → Task → Task
after_turn now t =
    if is_ready t.state && due now t
    then record t { state = ready; tick_count = (t.tick_count + 1) % 2 ^ 32; last_run = now }
    else t

-- The scheduler after one round, when the task called leaves it alone.
pub slot_step : ℕ → Scheduler → Scheduler
slot_step i s =
    if is_ready (task_at s i).state && due s.sched_tick (task_at s i)
    then finished i (started i s)
    else s

finished-started :
    (s : Scheduler) (i : ℕ)
    → i < length s.task_table
    → task_at (finished i (started i s)) i ≡ record (task_at s i) {
      state = ready;
      tick_count = ((task_at s i).tick_count + 1) % 2 ^ 32;
      last_run = s.sched_tick;
    }
unfolding finished started
finished-started s i lt =
    rw
      (get_or-set_self s.task_table i
        (record (task_at s i) { state = running; last_run = s.sched_tick }) blank_task lt)
      (get_or-set_self _ i _ blank_task (
        omega (
          arith,
          length-set s.task_table i
              (record (task_at s i) { state = running; last_run = s.sched_tick }),
        )))

slot_step_same :
    (s : Scheduler) (i : ℕ)
    → i < length s.task_table
    → task_at (slot_step i s) i ≡ after_turn s.sched_tick (task_at s i)
unfolding slot_step after_turn
slot_step_same s i lt =
    elim (Bool-cases (is_ready (task_at s i).state && due s.sched_tick (task_at s i))) [
      | inl e ↦ rw e (finished-started s i lt)
      | inr e ↦ rw e refl
    ]

pub slot_step_other : (s : Scheduler) (i j : ℕ) → i ≢ j → task_at (slot_step i s) j ≡ task_at s j
unfolding slot_step finished started
slot_step_other s i j ne =
    elim (Bool-cases (is_ready (task_at s i).state && due s.sched_tick (task_at s i))) [
      | inl e ↦
          rw e
            (get_or-set_ne _ i j _ blank_task ne ∙ get_or-set_ne s.task_table i j _ blank_task ne)
      | inr e ↦ rw e refl
    ]

pub slot_step_shape :
    (s : Scheduler) (i : ℕ)
    → ((slot_step i s).sched_tick ≡ s.sched_tick)
      × (length (slot_step i s).task_table ≡ length s.task_table)
unfolding slot_step finished started
slot_step_shape s i =
    elim (Bool-cases (is_ready (task_at s i).state && due s.sched_tick (task_at s i))) [
      | inl e ↦ rw e (refl, length-set _ i _ ∙ length-set s.task_table i _)
      | inr e ↦ rw e (refl, refl)
    ]

-- The rounds of the loop from slot `i` on.
steps : ℕ → ℕ → Scheduler → Scheduler
steps zero i s = s
steps (suc n) i s = steps n (i + 1) (slot_step i s)

steps_shape :
    (n i : ℕ) (s : Scheduler)
    → ((steps n i s).sched_tick ≡ s.sched_tick)
      × (length (steps n i s).task_table ≡ length s.task_table)
unfolding steps
steps_shape zero i s = (refl, refl)
steps_shape (suc n) i s =
    let (tick, size) = slot_step_shape s i in
    let (ticks, sizes) = steps_shape n (i + 1) (slot_step i s) in (ticks ∙ tick, sizes ∙ size)

steps_before : (n i j : ℕ) (s : Scheduler) → j < i → task_at (steps n i s) j ≡ task_at s j
unfolding steps
steps_before zero i j s lt = refl
steps_before (suc n) i j s lt =
    steps_before n (i + 1) j (slot_step i s) (omega arith) ∙ slot_step_other s i j (omega arith)

steps_at :
    (n i j : ℕ) (s : Scheduler)
    → i ≤ j
    → j < i + n
    → j < length s.task_table
    → task_at (steps n i s) j ≡ after_turn s.sched_tick (task_at s j)
unfolding steps
steps_at zero i j s lo hi room = absurd (omega arith)
steps_at (suc n) i j s lo hi room = elim (Bool-cases (i == j)) [
  | inl e ↦
      let same : i ≡ j = ground arith in
      steps_before n (i + 1) j (slot_step i s) (omega arith)
      ∙ subst (λ x. task_at (slot_step i s) x ≡ after_turn s.sched_tick (task_at s x)) same
          (slot_step_same s i (omega arith))
  | inr e ↦
      let shape = slot_step_shape s i in
      steps_at n (i + 1) j (slot_step i s) (ground arith) (omega arith) (omega (arith, shape.1))
      ∙ ap (λ x. after_turn x (task_at (slot_step i s) j)) shape.0
      ∙ ap (after_turn s.sched_tick) (slot_step_other s i j (ground arith))
]

module _ {W : Type 0} (run : ℕ → Scheduler × Bus × W → Scheduler × Bus × W)
    (alone : (f : ℕ) (st : Scheduler × Bus × W) → (run f st).0 ≡ st.0) where
  pub run_slot-slot_step :
      (i : ℕ) (st : Scheduler × Bus × W) → (run_slot run i st).0 ≡ slot_step i st.0
  unfolding run_slot slot_step
  run_slot-slot_step i (s, b, w) =
      elim (Bool-cases (is_ready (task_at s i).state && due s.sched_tick (task_at s i))) [
        | inl e ↦ rw e (ap (finished i) (alone (task_at s i).fn (started i s, b, w)))
        | inr e ↦ rw e refl
      ]

  run_loop-steps : (n i : ℕ) (st : Scheduler × Bus × W) → (run_loop run n i st).0 ≡ steps n i st.0
  unfolding run_loop steps
  run_loop-steps zero i st = refl
  run_loop-steps (suc n) i st =
      run_loop-steps n (i + 1) (run_slot run i st) ∙ ap (steps n (i + 1)) (run_slot-slot_step i st)

  -- The slots after a tick.
  pub scheduler_tick_slots :
      (tick : ℕ) (s : Scheduler) (b : Bus) (w : W) (j : ℕ)
      → length s.task_table ≡ max_tasks
      → j < max_tasks
      → task_at (scheduler_tick run tick (s, b, w)).0 j
        ≡ after_turn ((s.sched_tick + 1) % 2 ^ 32) (cleaned (task_at s j))
  unfolding scheduler_tick
  scheduler_tick_slots tick s b w j size lt =
      let s0 : Scheduler = record s {
        sched_tick = (s.sched_tick + 1) % 2 ^ 32;
        task_table = map cleaned s.task_table;
      } in
      ap (λ x. task_at x j) (run_loop-steps max_tasks 0 (s0, b, w))
      ∙ steps_at max_tasks 0 j s0 (omega arith) (omega arith)
          (omega (arith, length-map cleaned s.task_table))
      ∙ ap (after_turn ((s.sched_tick + 1) % 2 ^ 32))
          (get_or-map cleaned s.task_table j blank_task blank_task (omega arith))

  pub scheduler_tick_shape :
      (tick : ℕ) (st : Scheduler × Bus × W)
      → ((scheduler_tick run tick st).0.sched_tick ≡ (st.0.sched_tick + 1) % 2 ^ 32)
        × (length (scheduler_tick run tick st).0.task_table ≡ length st.0.task_table)
  unfolding scheduler_tick
  scheduler_tick_shape tick (s, b, w) =
      let s0 : Scheduler = record s {
        sched_tick = (s.sched_tick + 1) % 2 ^ 32;
        task_table = map cleaned s.task_table;
      } in
      let same = run_loop-steps max_tasks 0 (s0, b, w) in
      let (ticks, sizes) = steps_shape max_tasks 0 s0 in
      (
        ap (λ (x : Scheduler). x.sched_tick) same ∙ ticks,
        ap (λ (x : Scheduler). length x.task_table) same ∙ sizes ∙ length-map cleaned s.task_table,
      )
