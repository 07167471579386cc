-- ===== src/Scheduler/Valid.antt =====
-- The number of tasks that kernel/scheduler.c keeps beside its table.
use new_attempt.Base.{
  weight, Bool, Bool-cases, List, Option-cases, [], ap, arith, count, count-set, false, find_index,
  find_index_holds, find_index_lt, inl, inr, length, length-set, map, refl, set, some, suc, sym,
  true, ℕ, ◌==◌, ◌||◌, ◌∙◌, ◌∷◌, ◌≡◌,
}
use new_attempt.Scheduler.{
  incr, decr, at_least, blank_task, no_name, named, task_at, pos, CharPtr, added, max_tasks,
  scheduler_remove_task, scheduler_add_task, removed, slot_free, cleaned, cleaned_state, is_empty,
  Scheduler, Task, empty, ready, running, blocked, zombie, TaskState,
}

abbrev live_state : TaskState → Bool
live_state empty = false
live_state zombie = false
live_state _ = true

-- A slot that holds a task which has not been removed.
unfoldable pub live : Task → Bool
live t = live_state t.state

pub record IsValid (s : Scheduler) : Type 0 where
  pub slots : length s.task_table ≡ max_tasks
  pub counted : s.task_count_val ≡ pos (count live s.task_table)

free_state : (x : TaskState) → is_empty x ≡ true → live_state x ≡ false
free_state empty h = refl
free_state ready h = cc
free_state running h = cc
free_state blocked h = cc
free_state zombie h = refl

live-cleaned_state : (x : TaskState) → live_state (cleaned_state x) ≡ live_state x
live-cleaned_state empty = refl
live-cleaned_state ready = refl
live-cleaned_state running = refl
live-cleaned_state blocked = refl
live-cleaned_state zombie = refl

live-cleaned : (t : Task) → live (cleaned t) ≡ live t
unfolding live cleaned
live-cleaned t = live-cleaned_state t.state

pub count-map-cleaned : (l : List Task) → count live (map cleaned l) ≡ count live l
unfolding count
count-map-cleaned [] = refl
count-map-cleaned (t ∷ l) = omega (arith, ap weight (live-cleaned t), count-map-cleaned l)

added-live :
    (s : Scheduler) (name : CharPtr) (fn period i : ℕ)
    → find_index slot_free s.task_table ≡ some i
    → count live (set s.task_table i (added (task_at s i) name fn period))
      ≡ suc (count live s.task_table)
unfolding live slot_free added
added-live s name fn period i e =
    let was : live (task_at s i) ≡ false =
      free_state (task_at s i).state (find_index_holds slot_free s.task_table i blank_task e) in
    omega (
      arith,
      ap weight was,
      count-set live s.task_table i (added (task_at s i) name fn period) blank_task
          (find_index_lt slot_free s.task_table i e),
    )

removed-live :
    (s : Scheduler) (name : CharPtr) (i : ℕ)
    → find_index (named name) s.task_table ≡ some i
    → live (task_at s i) ≡ true
    → count live s.task_table ≡ suc (count live (set s.task_table i (removed (task_at s i))))
unfolding live removed
removed-live s name i e h = omega (
  arith,
  ap weight h,
  count-set live s.task_table i (removed (task_at s i)) blank_task
      (find_index_lt (named name) s.task_table i e),
)

-- `scheduler_add_task` keeps the number of tasks equal to the number of slots that hold one, on every
-- branch.
pub scheduler_add_task-IsValid :
    {s : Scheduler} (name : CharPtr) (fn period : ℕ)
    → IsValid s
    → IsValid (scheduler_add_task s name fn period).1
unfolding scheduler_add_task
scheduler_add_task-IsValid {s} name fn period v = elim (Bool-cases (no_name name || fn == 0)) [
  | inl e ↦ rw (e, scheduler_add_task) v
  | inr e ↦ elim (Bool-cases (at_least max_tasks s.task_count_val)) [
    | inl f ↦ rw (e, scheduler_add_task, f) v
    | inr f ↦ elim (Option-cases (find_index slot_free s.task_table)) [
      | inl g ↦ rw (e, scheduler_add_task, f, g) v
      | inr (i, g) ↦
          rw (e, scheduler_add_task, f, g)
            (record {
              slots = length-set s.task_table i _ ∙ v.slots;
              counted = ap incr v.counted ∙ ap pos (sym (added-live s name fn period i g));
            })
    ]
  ]
]

-- Where the task that the name finds has not been removed already, `scheduler_remove_task` keeps the
-- number of tasks equal to the number of slots that hold one.
pub scheduler_remove_task-IsValid :
    {s : Scheduler} (name : CharPtr) (i : ℕ)
    → IsValid s
    → find_index (named name) s.task_table ≡ some i
    → live (task_at s i) ≡ true
    → IsValid (scheduler_remove_task s name).1
unfolding scheduler_remove_task
scheduler_remove_task-IsValid {s} name i v e h =
    rw (e, scheduler_remove_task)
      (record {
        slots = length-set s.task_table i _ ∙ v.slots;
        counted = ap decr (v.counted ∙ ap pos (removed-live s name i e h));
      })
