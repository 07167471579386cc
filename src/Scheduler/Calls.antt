-- ===== src/Scheduler/Calls.antt =====
-- The task functions that a tick of kernel/scheduler.c calls, for tasks that leave the scheduler alone.
use mathlib.Core.List.{append_assoc, append-nil}
use mathlib.Core.Path.{ap₂}
use new_attempt.Base.{
  sym, List, [], ◌∷◌, ◌++◌, true, Bool-cases, ap, arith, if◌then◌else◌, inl, inr, map, refl, suc,
  zero, ℕ, ◌%◌, ◌&&◌, ◌+◌, ◌<◌, ◌==◌, ◌^◌, ◌∙◌, ◌≡◌, ◌≤◌,
}
use new_attempt.Scheduler.{
  cleaned, max_tasks, scheduler_tick, run_loop, run_slot, due, Bus, task_at, started, is_ready,
  Scheduler, Task,
}
use new_attempt.Scheduler.Tick.{run_slot-slot_step, slot_step_shape, slot_step_other}

-- The functions of the tasks in `n` slots from slot `i` on that are ready and due, in order.
unfoldable pub turns : Scheduler → ℕ → ℕ → List ℕ
turns s zero i = []
turns s (suc n) i =
    (if is_ready (task_at s i).state && due s.sched_tick (task_at s i)
      then (task_at s i).fn ∷ []
      else [])
    ++ turns s n (i + 1)

-- The scheduler when a tick begins to call its tasks.
abbrev pub next_tick : Scheduler → Scheduler
next_tick s = record s {
  sched_tick = (s.sched_tick + 1) % 2 ^ 32;
  task_table = map cleaned s.task_table;
}

-- The turns depend on the slots from `i` on and on the tick.
turns_same :
    (s r : Scheduler) (n i : ℕ)
    → s.sched_tick ≡ r.sched_tick
    → ((j : ℕ) → i ≤ j → task_at s j ≡ task_at r j)
    → turns s n i ≡ turns r n i
unfolding turns
turns_same s r zero i e h = refl
turns_same s r (suc n) i e h =
    ap₂ (λ (k l : List ℕ). k ++ l)
      (ap₂ (λ (t : Task) (now : ℕ). if is_ready t.state && due now t then t.fn ∷ [] else [])
        (h i (omega arith)) e)
      (turns_same s r n (i + 1) e (λ j lt. h j (omega arith)))

module _ {W : Type 0} (run : ℕ → Scheduler × Bus × W → Scheduler × Bus × W)
    (alone : (f : ℕ) (st : Scheduler × Bus × W) → (run f st).0 ≡ st.0) (log : W → List ℕ)
    (logged : (f : ℕ) (st : Scheduler × Bus × W) → log (run f st).2 ≡ log st.2 ++ (f ∷ [])) where
  run_slot_called :
      (i : ℕ) (st : Scheduler × Bus × W)
      → log (run_slot run i st).2
        ≡ log st.2
          ++ (if is_ready (task_at st.0 i).state && due st.0.sched_tick (task_at st.0 i)
              then (task_at st.0 i).fn ∷ []
              else [])
  unfolding run_slot
  run_slot_called i (s, b, w) =
      elim (Bool-cases (is_ready (task_at s i).state && due s.sched_tick (task_at s i))) [
        | inl e ↦ rw e (logged (task_at s i).fn (started i s, b, w))
        | inr e ↦ rw e (sym (append-nil (log w)))
      ]

  run_loop-turns :
      (n i : ℕ) (st : Scheduler × Bus × W)
      → log (run_loop run n i st).2 ≡ log st.2 ++ turns st.0 n i
  unfolding run_loop turns
  run_loop-turns zero i st = sym (append-nil (log st.2))
  run_loop-turns (suc n) i st =
      let next = run_slot run i st in
      let step = run_slot-slot_step run alone i st in
      let later =
        turns_same next.0 st.0 n (i + 1)
          (ap (λ (x : Scheduler). x.sched_tick) step ∙ (slot_step_shape st.0 i).0)
          (λ j lt.
            ap (λ (x : Scheduler). task_at x j) step ∙ slot_step_other st.0 i j (omega arith)) in
      run_loop-turns n (i + 1) next
      ∙ ap (λ l. log next.2 ++ l) later
      ∙ ap (λ l. l ++ turns st.0 n (i + 1)) (run_slot_called i st)
      ∙ append_assoc (log st.2) _ (turns st.0 n (i + 1))

  pub scheduler_tick-turns :
      (tick : ℕ) (st : Scheduler × Bus × W)
      → log (scheduler_tick run tick st).2 ≡ log st.2 ++ turns (next_tick st.0) max_tasks 0
  unfolding scheduler_tick
  scheduler_tick-turns tick (s, b, w) = run_loop-turns max_tasks 0 (next_tick s, b, w)

-- A task that is ready and due has its turn.
pub turns-has :
    (s : Scheduler) (n i j : ℕ)
    → i ≤ j
    → j < i + n
    → (is_ready (task_at s j).state && due s.sched_tick (task_at s j)) ≡ true
    → (u : List ℕ) × (v : List ℕ) × (turns s n i ≡ u ++ ((task_at s j).fn ∷ v))
unfolding turns
turns-has s zero i j lo hi e = absurd (omega arith)
turns-has s (suc n) i j lo hi e = elim (Bool-cases (i == j)) [
  | inl same ↦ let here : i ≡ j = ground arith in rw (here, e) ([], turns s n (j + 1), refl)
  | inr other ↦
      let (u, v, found) = turns-has s n (i + 1) j (ground arith) (omega arith) e in
      let mine : List ℕ =
        if is_ready (task_at s i).state && due s.sched_tick (task_at s i)
        then (task_at s i).fn ∷ []
        else [] in
      (mine ++ u, v, ap (λ l. mine ++ l) found ∙ sym (append_assoc mine u ((task_at s j).fn ∷ v)))
]
