-- ===== src/EventBus/Valid.antt =====
-- The representation invariant of the event bus: every index stays inside its array.
use new_attempt.Base.{
  find_index, Option-cases, ◌==◌, inr, inl, false, Bool-cases, leb, refl, ◌%◌, All-set, ◌+◌, ◌∙◌,
  [], set, All-get_or, ◌≤◌, All, ◌≡◌, length-set, ◌<◌, length, ℕ, List, arith,
}
use new_attempt.EventBus.{
  eventbus_unsubscribe, max_handlers, queue_depth, row, take_event, max_topics, Handler,
  eventbus_subscribe, eventbus_publish, eventbus_init, Bus,
}

pub record IsValid (b : Bus) : Type 0 where
  pub topics : length b.handlers ≡ max_topics
  pub rows : All (λ hs. length hs ≡ max_handlers) b.handlers
  pub slots : length b.queue ≡ queue_depth
  pub head_in : b.q_head < queue_depth
  pub count_in : b.q_count ≤ queue_depth
  pub tail_at : b.q_tail ≡ (b.q_head + b.q_count) % queue_depth

-- Where topic is below 32, the row of handlers has 8 entries.
pub length-row :
    {b : Bus} → IsValid b → (topic : ℕ) → topic < max_topics → length (row b topic) ≡ max_handlers
length-row {b} v topic h =
    All-get_or (λ hs. length hs ≡ max_handlers) b.handlers topic [] v.rows (omega arith)

-- `eventbus_init` gives a valid, empty bus, if the queue has its 64 slots.
pub eventbus_init-IsValid : (b : Bus) → length b.queue ≡ queue_depth → IsValid (eventbus_init b)
unfolding eventbus_init
eventbus_init-IsValid b h = record {
  topics = refl;
  rows = omega arith;
  slots = h;
  head_in = omega arith;
  count_in = omega arith;
  tail_at = refl;
}

-- A full bus refuses, a bad topic is refused, and what is accepted keeps every index in its array.
pub eventbus_publish-IsValid :
    {b : Bus} (tick topic payload : ℕ)
    → IsValid b
    → IsValid (eventbus_publish tick b topic payload).1
unfolding eventbus_publish
eventbus_publish-IsValid {b} tick topic payload v = ground (
  arith,
  length-set b.queue b.q_tail (record { topic = topic; payload = payload; timestamp = tick }),
)

pub take_event-IsValid : {b : Bus} → IsValid b → 0 < b.q_count → IsValid (take_event b)
take_event-IsValid {b} v h = ground arith

set_row-IsValid :
    {b : Bus} (topic : ℕ) (hs : List Handler)
    → IsValid b
    → length hs ≡ max_handlers
    → IsValid (record b { handlers = set b.handlers topic hs })
set_row-IsValid {b} topic hs v h = record {
  topics = length-set b.handlers topic hs ∙ v.topics;
  rows = All-set (λ hs. length hs ≡ max_handlers) b.handlers topic hs v.rows h;
  slots = v.slots;
  head_in = v.head_in;
  count_in = v.count_in;
  tail_at = v.tail_at;
}

module _ {b : Bus} (topic : ℕ) (handler : Handler) (v : IsValid b) where
  set_handler-IsValid :
      (i : ℕ) (h : Handler)
      → leb max_topics topic ≡ false
      → IsValid (record b { handlers = set b.handlers topic (set (row b topic) i h) })
  set_handler-IsValid i h small =
      set_row-IsValid topic (set (row b topic) i h) v
        (length-set (row b topic) i h ∙ length-row v topic (ground arith))

  pub eventbus_subscribe-IsValid : IsValid (eventbus_subscribe b topic handler).1
  unfolding eventbus_subscribe
  eventbus_subscribe-IsValid = elim (Bool-cases (leb max_topics topic)) [
    | inl e ↦ rw (e, eventbus_subscribe) v
    | inr e ↦ elim (Bool-cases (handler == 0)) [
      | inl z ↦ rw (e, eventbus_subscribe, z) v
      | inr z ↦ elim (Option-cases (find_index (λ h. h == 0) (row b topic))) [
        | inl f ↦ rw (e, eventbus_subscribe, z, f) v
        | inr (i, f) ↦ rw (e, eventbus_subscribe, z, f) (set_handler-IsValid i handler e)
      ]
    ]
  ]

  pub eventbus_unsubscribe-IsValid : IsValid (eventbus_unsubscribe b topic handler).1
  unfolding eventbus_unsubscribe
  eventbus_unsubscribe-IsValid = elim (Bool-cases (leb max_topics topic)) [
    | inl e ↦ rw (e, eventbus_unsubscribe) v
    | inr e ↦ elim (Bool-cases (handler == 0)) [
      | inl z ↦ rw (e, eventbus_unsubscribe, z) v
      | inr z ↦ elim (Option-cases (find_index (λ h. h == handler) (row b topic))) [
        | inl f ↦ rw (e, eventbus_unsubscribe, z, f) v
        | inr (i, f) ↦ rw (e, eventbus_unsubscribe, z, f) (set_handler-IsValid i 0 e)
      ]
    ]
  ]
