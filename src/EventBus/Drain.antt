-- ===== src/EventBus/Drain.antt =====
-- `eventbus_process` with handlers that leave the bus alone.
use new_attempt.Base.{
  Bool-cases, List, [], ap, arith, drop, get_or, if◌then◌else◌, inl, inr, length, ltb, refl, some,
  suc, zero, ℕ, ◌+◌, ◌<◌, ◌==◌, ◌∙◌, ◌∷◌, ◌≡◌, ◌≤◌,
}
use new_attempt.EventBus.{
  take_event, blank_event, max_handlers, eventbus_process, deliver, row, max_topics, deliver_from,
  Bus, Event, Handler,
}
use new_attempt.EventBus.Valid.{take_event-IsValid, length-row, IsValid}
use new_attempt.EventBus.Queue.{pending-nil, pending-take_event, pending}

module _ {W : Type 0} (effect : Handler → Event → W → W) where
  -- Such a handler as a callback of the bus.
  abbrev pub quiet : Handler → Event → Bus × W → Bus × W
  quiet f evt (b, w) = (b, effect f evt w)

  -- The handlers of a row, in order of their slots.
  unfoldable pub run_row : List Handler → Event → W → W
  run_row [] evt w = w
  run_row (f ∷ fs) evt w = run_row fs evt (if f == 0 then w else effect f evt w)

  -- The events in order, each to the handlers of its topic.
  unfoldable pub run_events : List (List Handler) → List Event → W → W
  run_events table [] w = w
  run_events table (evt ∷ evts) w =
      run_events table evts
        (if ltb evt.topic max_topics then run_row (get_or table evt.topic []) evt w else w)

  drop-suc : (l : List Handler) (h : ℕ) → h < length l → drop h l ≡ get_or l h 0 ∷ drop (suc h) l
  drop-suc [] h lt = absurd (omega arith)
  drop-suc (x ∷ xs) zero lt = refl
  drop-suc (x ∷ xs) (suc h) lt = drop-suc xs h (omega arith)

  drop-get_or : (l : List Handler) (h : ℕ) → h < length l → drop h l ≡ get_or l h 0 ∷ drop (h + 1) l
  drop-get_or l h lt =
      let e : suc h ≡ h + 1 = omega arith in drop-suc l h lt ∙ ap (λ k. get_or l h 0 ∷ drop k l) e

  drop-all : (l : List Handler) (h : ℕ) → length l ≤ h → drop h l ≡ []
  drop-all [] zero lt = refl
  drop-all [] (suc h) lt = refl
  drop-all (x ∷ xs) zero lt = absurd (omega arith)
  drop-all (x ∷ xs) (suc h) lt = drop-all xs h (omega arith)

  deliver_from-quiet :
      (n h : ℕ) (evt : Event) (b : Bus) (w : W)
      → length (row b evt.topic) ≡ h + n
      → deliver_from quiet n h evt (b, w) ≡ (b, run_row (drop h (row b evt.topic)) evt w)
  unfolding deliver_from run_row
  deliver_from-quiet zero h evt b w e = rw (drop-all (row b evt.topic) h (omega arith))
  deliver_from-quiet (suc n) h evt b w e =
      let next = λ (u : W). deliver_from-quiet n (h + 1) evt b u (omega arith) in
      let f = get_or (row b evt.topic) h 0 in
      rw (drop-get_or (row b evt.topic) h (omega arith))
        (ground (arith, next w, next (effect f evt w)))

  deliver-quiet :
      (evt : Event) (b : Bus) (w : W)
      → IsValid b
      → deliver quiet evt (b, w) ≡ (b, run_events b.handlers (evt ∷ []) w)
  unfolding deliver run_events
  deliver-quiet evt b w v = elim (Bool-cases (ltb evt.topic max_topics)) [
    | inl small ↦ rw small (
        deliver_from-quiet max_handlers 0 evt b w
          (omega (arith, length-row v evt.topic (ground arith))))
    | inr big ↦ rw big
  ]

  -- The bus after all its events: the table of handlers is the same.
  abbrev pub drained : Bus → Bus
  drained b = record b { q_head = b.q_tail; q_count = 0 }

  -- With handlers that leave the bus alone, more rounds than queued events are enough for
  -- `eventbus_process`: it empties the queue, and every queued event reaches each handler of its
  -- topic, the oldest event first and the handlers in the order of their slots.
  pub eventbus_process-run_events :
      (fuel : ℕ) (b : Bus) (w : W)
      → IsValid b
      → b.q_count < fuel
      → eventbus_process quiet fuel (b, w) ≡ some (drained b, run_events b.handlers (pending b) w)
  unfolding eventbus_process run_events
  eventbus_process-run_events zero b w v h = absurd (omega arith)
  eventbus_process-run_events (suc fuel) b w v h = elim (Bool-cases (ltb 0 b.q_count)) [
    | inl more ↦ rw more (
        rw
          (
            deliver-quiet (get_or b.queue b.q_head blank_event) (take_event b) w
                (take_event-IsValid v (ground arith)),
            pending-take_event v (ground arith),
          )
          (eventbus_process-run_events fuel (take_event b) _ (take_event-IsValid v (ground arith))
            (ground arith)))
    | inr done ↦ rw done (ground (arith, pending-nil b))
  ]
