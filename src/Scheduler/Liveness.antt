-- ===== src/Scheduler/Liveness.antt =====
-- The periods of kernel/scheduler.c: a ready task comes to its turn.
use new_attempt.Base.{
  List, [], ◌∷◌, ◌++◌, ◌&&◌, true, get_or-map, Bool-cases, leb, ◌||◌, sym, ◌%◌, ◌==◌, ◌∙◌, ◌^◌, ◌<◌,
  ap, ◌≤◌, ◌≡◌, ℕ, suc, zero, arith, refl, inl, inr, length, ◌+◌, ◌-◌,
}
use new_attempt.Scheduler.{
  cleaned_state, Scheduler, Task, Bus, scheduler_tick, task_at, due, cleaned, max_tasks, ready,
  is_ready, blank_task,
}
use new_attempt.Scheduler.Tick.{after_turn, scheduler_tick_slots, scheduler_tick_shape}
use new_attempt.Scheduler.Calls.{turns-has, scheduler_tick-turns, next_tick, turns}
use mathlib.Core.Path.{ap₂}

-- `k` ticks, the next one number `i`; `now i` is `g_tick_count` at tick `i`.
unfoldable pub scheduler_ticks :
    {W : Type 0}
    → (ℕ → Scheduler × Bus × W → Scheduler × Bus × W)
    → (ℕ → ℕ)
    → ℕ
    → ℕ
    → Scheduler × Bus × W
    → Scheduler × Bus × W
unfolding scheduler_tick
scheduler_ticks run now zero i st = st
scheduler_ticks run now (suc k) i st =
    scheduler_ticks run now k (i + 1) (scheduler_tick run (now i) st)

due_lem :
    (now : ℕ) (t : Task)
    → t.last_run ≤ now
    → now < 2 ^ 32
    → due now t ≡ (t.period == 0 || leb t.period (now - t.last_run))
unfolding due
due_lem now t h low = ap (λ n. t.period == 0 || leb t.period n) (omega arith)

cleaned_ready : (t : Task) → t.state ≡ ready → cleaned t ≡ t
unfolding cleaned
cleaned_ready t e =
    ap (λ x. record t { state = cleaned_state x }) e ∙ ap (λ x. record t { state = x }) (sym e)

-- A ready task that is due at the next tick has its turn in it.
turn_called :
    {W : Type 0} (st : Scheduler × Bus × W) (j now : ℕ)
    → (st.0.sched_tick + 1) % 2 ^ 32 ≡ now
    → length st.0.task_table ≡ max_tasks
    → j < max_tasks
    → (task_at st.0 j).state ≡ ready
    → (is_ready ready && due now (task_at st.0 j)) ≡ true
    → (u : List ℕ) × (v : List ℕ) × (turns (next_tick st.0) max_tasks 0
        ≡ u ++ ((task_at st.0 j).fn ∷ v))
turn_called st j now next size lt is_on due_now =
    let here : task_at (next_tick st.0) j ≡ task_at st.0 j =
      get_or-map cleaned st.0.task_table j blank_task blank_task (omega arith)
      ∙ cleaned_ready (task_at st.0 j) is_on in
    let (u, v, found) =
      turns-has (next_tick st.0) max_tasks 0 j (omega arith) (omega arith)
        (rw (here, is_on, next) due_now) in
    (u, v, found ∙ ap (λ (t : Task). u ++ (t.fn ∷ v)) here)

module _ {W : Type 0} (run : ℕ → Scheduler × Bus × W → Scheduler × Bus × W)
    (alone : (f : ℕ) (st : Scheduler × Bus × W) → (run f st).0 ≡ st.0) (log : W → List ℕ)
    (logged : (f : ℕ) (st : Scheduler × Bus × W) → log (run f st).2 ≡ log st.2 ++ (f ∷ []))
    (now : ℕ → ℕ) where
  -- For tasks that leave the scheduler alone, `log` being the functions called so far: a ready task whose
  -- period is over after at most `n` further ticks, before the counter wraps, has its function called in
  -- one of the next `n` ticks, the one after `k` others; its run is counted, and that tick is its last
  -- run.
  pub scheduler_ticks_run :
      (n i j : ℕ) (st : Scheduler × Bus × W)
      → length st.0.task_table ≡ max_tasks
      → j < max_tasks
      → (task_at st.0 j).state ≡ ready
      → (task_at st.0 j).last_run ≤ st.0.sched_tick
      → st.0.sched_tick + n < 2 ^ 32
      → (task_at st.0 j).period ≤ st.0.sched_tick - (task_at st.0 j).last_run + n
      → 0 < n
      → (k : ℕ) × (k < n)
        × ((task_at (scheduler_ticks run now (suc k) i st).0 j).last_run ≡ st.0.sched_tick + k + 1)
        × ((task_at (scheduler_ticks run now (suc k) i st).0 j).tick_count
            ≡ ((task_at st.0 j).tick_count + 1) % 2 ^ 32)
        × (u : List ℕ) × (v : List ℕ) × (log (scheduler_ticks run now (suc k) i st).2
            ≡ log (scheduler_ticks run now k i st).2 ++ (u ++ ((task_at st.0 j).fn ∷ v)))
  unfolding scheduler_ticks after_turn
  scheduler_ticks_run zero i j st size lt is_on past low near some_tick = absurd (omega arith)
  scheduler_ticks_run (suc n) i j st size lt is_on past low near some_tick =
      let u = task_at st.0 j in
      let st1 = scheduler_tick run (now i) st in
      let (ticks, sizes) = scheduler_tick_shape run alone (now i) st in
      let next : (st.0.sched_tick + 1) % 2 ^ 32 ≡ st.0.sched_tick + 1 = omega arith in
      let turn : task_at st1.0 j ≡ after_turn (st.0.sched_tick + 1) u =
        scheduler_tick_slots run alone (now i) st.0 st.1 st.2 j size lt
        ∙ ap₂ after_turn next (cleaned_ready u is_on) in
      let when = due_lem (st.0.sched_tick + 1) u (omega arith) (omega arith) in
      elim (Bool-cases (u.period == 0 || leb u.period (st.0.sched_tick + 1 - u.last_run))) [
        | inl e ↦
            let counted : Task = record u {
              state = ready;
              tick_count = (u.tick_count + 1) % 2 ^ 32;
              last_run = st.0.sched_tick + 1;
            } in
            let runs : after_turn (st.0.sched_tick + 1) u ≡ counted =
              rw (is_on, when, e, after_turn) refl in
            let ran = turn ∙ runs in
            let ready_due : (is_ready ready && due (st.0.sched_tick + 1) u) ≡ true = when ∙ e in
            let (v, w, has) = turn_called st j (st.0.sched_tick + 1) next size lt is_on ready_due in
            (
              0,
              omega arith,
              ap (λ (t : Task). t.last_run) ran ∙ omega arith,
              ap (λ (t : Task). t.tick_count) ran,
              v,
              w,
              scheduler_tick-turns run alone log logged (now i) st ∙ ap (λ l. log st.2 ++ l) has,
            )
        | inr e ↦
            let waits : after_turn (st.0.sched_tick + 1) u ≡ u =
              rw (is_on, when, e, after_turn) refl in
            let same : task_at st1.0 j ≡ u = turn ∙ waits in
            let last_same = ap (λ (t : Task). t.last_run) same in
            let period_same = ap (λ (t : Task). t.period) same in
            let short : st.0.sched_tick + 1 - u.last_run < u.period = ground arith in
            let (k, small, last, counted, v, w, called) =
              scheduler_ticks_run n (i + 1) j st1 (sizes ∙ size) lt
                (ap (λ (t : Task). t.state) same ∙ is_on) (omega (arith, ticks, last_same))
                (omega (arith, ticks)) (omega (arith, ticks, last_same, period_same))
                (omega arith) in
            (
              suc k,
              omega arith,
              last ∙ omega (arith, ticks),
              counted ∙ ap (λ (t : Task). (t.tick_count + 1) % 2 ^ 32) same,
              v,
              w,
              called
                  ∙ ap
                      (λ (t : Task).
                        log (scheduler_ticks run now k (i + 1) st1).2 ++ (v ++ (t.fn ∷ w)))
                      same,
            )
      ]
