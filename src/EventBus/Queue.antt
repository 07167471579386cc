-- ===== src/EventBus/Queue.antt =====
-- The queue of events against a bounded first-in first-out queue.
use new_attempt.Base.{
  List, [], ap, arith, get_or, if◌then◌else◌, leb, length, length-ring_items, ring_items,
  ring_items-pop, ring_items-push, ℕ, ◌++◌, ◌-◌, ◌<◌, ◌∙◌, ◌∷◌, ◌≡◌,
}
use new_attempt.EventBus.{
  ok, busy, err, take_event, max_topics, queue_depth, Status, blank_event, eventbus_publish, Event,
  Bus,
}
use new_attempt.EventBus.Valid.{IsValid, eventbus_publish-IsValid}

-- The queued events, oldest first.
abbrev pub pending : Bus → List Event
pending b = ring_items blank_event queue_depth b.queue b.q_head b.q_count

-- What `eventbus_publish` promises of the queue.
unfoldable pub publish_spec : ℕ → List Event → ℕ → ℕ → Status × List Event
publish_spec tick q topic payload =
    if leb max_topics topic
    then (err, q)
    else if leb queue_depth (length q)
    then (busy, q)
    else (ok, q ++ (record { topic = topic; payload = payload; timestamp = tick } ∷ []))

publish_queue :
    {b : Bus} (tick topic payload : ℕ)
    → IsValid b
    → ((eventbus_publish tick b topic payload).0, pending (eventbus_publish tick b topic payload).1)
      ≡ publish_spec tick (pending b) topic payload
unfolding eventbus_publish publish_spec
publish_queue {b} tick topic payload v = ground (
  arith,
  length-ring_items blank_event queue_depth b.queue b.q_head b.q_count,
  ring_items-push blank_event queue_depth b.q_count b.queue b.q_head b.q_tail
      (record { topic = topic; payload = payload; timestamp = tick }) v.slots v.head_in,
)

publish_handlers :
    (b : Bus) (tick topic payload : ℕ)
    → (eventbus_publish tick b topic payload).1.handlers ≡ b.handlers
unfolding eventbus_publish
publish_handlers b tick topic payload = ground arith

-- `eventbus_publish` refuses a topic of 32 or more and a full queue, changing no queued event;
-- otherwise it puts the event, stamped with the tick, behind the queued ones. The bus stays valid, so a
-- further event goes to the next slot, and no handler changes.
pub eventbus_publish_refines :
    {b : Bus} (tick topic payload : ℕ)
    → IsValid b
    → ((
      (eventbus_publish tick b topic payload).0,
      pending (eventbus_publish tick b topic payload).1,
    )
        ≡ publish_spec tick (pending b) topic payload)
      × IsValid (eventbus_publish tick b topic payload).1
      × ((eventbus_publish tick b topic payload).1.handlers ≡ b.handlers)
eventbus_publish_refines tick topic payload v = (
  publish_queue tick topic payload v,
  eventbus_publish-IsValid tick topic payload v,
  publish_handlers _ tick topic payload,
)

-- The event that the loop of `eventbus_process` takes is the oldest.
pub pending-take_event :
    {b : Bus}
    → IsValid b
    → 0 < b.q_count
    → pending b ≡ get_or b.queue b.q_head blank_event ∷ pending (take_event b)
pending-take_event {b} v h =
    ring_items-pop blank_event queue_depth b.queue b.q_head b.q_count (omega arith)
    ∙ ap
        (λ k.
          get_or b.queue b.q_head blank_event
          ∷ ring_items blank_event queue_depth b.queue k (b.q_count - 1))
        (omega arith)

pub pending-nil : (b : Bus) → b.q_count ≡ 0 → pending b ≡ []
unfolding ring_items
pending-nil b e = ap (ring_items blank_event queue_depth b.queue b.q_head) e
