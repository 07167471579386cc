-- ===== src/EventBus.antt =====
-- kernel/eventbus.h and kernel/eventbus.c: handlers by topic, and the circular queue of events.
-- A handler is its address, 0 for NULL. `g_tick_count` is an argument of `eventbus_publish`.
pub mod Valid
pub mod Queue
pub mod Drain
pub mod Subscribe
mod Tests
use new_attempt.Base.{
  ◌^◌, [], ℕ, zero, suc, ◌+◌, ◌-◌, ◌%◌, Option, none, some, List, ltb, leb, ◌==◌, ◌||◌,
  if◌then◌else◌, get_or, set, replicate, find_index,
}
use new_attempt.Status.{Status, ok, err, noslot, notfound, busy}

abbrev pub max_topics : ℕ
max_topics = 32

abbrev pub max_handlers : ℕ
max_handlers = 8

abbrev pub queue_depth : ℕ
queue_depth = 64

abbrev pub topic_kernel_tick : ℕ
topic_kernel_tick = 0

abbrev pub topic_plugin_loaded : ℕ
topic_plugin_loaded = 1

abbrev pub topic_plugin_unloaded : ℕ
topic_plugin_unloaded = 2

abbrev pub topic_mirror_sync : ℕ
topic_mirror_sync = 3

abbrev pub topic_scheduler_switch : ℕ
topic_scheduler_switch = 4

-- `aura_event_t`
pub record Event : Type 0 where
  pub topic : ℕ
  pub payload : ℕ
  pub timestamp : ℕ

abbrev pub blank_event : Event
blank_event = record { topic = 0; payload = 0; timestamp = 0 }

-- `event_handler_t`
abbrev pub Handler : Type 0
Handler = ℕ

-- The static state of eventbus.c.
pub record Bus : Type 0 where
  pub handlers : List (List Handler)
  pub queue : List Event
  pub q_head : ℕ
  pub q_tail : ℕ
  pub q_count : ℕ

abbrev pub row : Bus → ℕ → List Handler
row b topic = get_or b.handlers topic []

-- Every handler of the table is written, and the queue is left as it is.
unfoldable pub eventbus_init : Bus → Bus
eventbus_init b = record b {
  handlers = replicate max_topics (replicate max_handlers 0);
  q_head = 0;
  q_tail = 0;
  q_count = 0;
}

unfoldable pub eventbus_subscribe : Bus → ℕ → Handler → Status × Bus
eventbus_subscribe b topic handler =
    if leb max_topics topic || handler == 0
    then (err, b)
    else elim (find_index (λ h. h == 0) (row b topic)) [
      | some i ↦ (ok, record b { handlers = set b.handlers topic (set (row b topic) i handler) })
      | none ↦ (noslot, b)
    ]

unfoldable pub eventbus_unsubscribe : Bus → ℕ → Handler → Status × Bus
eventbus_unsubscribe b topic handler =
    if leb max_topics topic || handler == 0
    then (err, b)
    else elim (find_index (λ h. h == handler) (row b topic)) [
      | some i ↦ (ok, record b { handlers = set b.handlers topic (set (row b topic) i 0) })
      | none ↦ (notfound, b)
    ]

-- `(uint8_t)((i + 1) % EVENTBUS_QUEUE_DEPTH)`
abbrev pub next_slot : ℕ → ℕ
next_slot i = (i + 1) % queue_depth % 2 ^ 8

unfoldable pub eventbus_publish : ℕ → Bus → ℕ → ℕ → Status × Bus
eventbus_publish tick b topic payload =
    if leb max_topics topic then (err, b) else if leb queue_depth b.q_count then (busy, b) else (
      ok,
      record b {
        queue =
            set b.queue b.q_tail (record { topic = topic; payload = payload; timestamp = tick });
        q_tail = next_slot b.q_tail;
        q_count = (b.q_count + 1) % 2 ^ 32;
      },
    )

unfoldable pub eventbus_pending : Bus → ℕ
eventbus_pending b = b.q_count

-- `q_head` and `q_count` after `evt = queue[q_head]`.
abbrev pub take_event : Bus → Bus
take_event b = record b { q_head = next_slot b.q_head; q_count = b.q_count - 1 }

-- A handler is code of another component. It may change the bus and the rest of the kernel's
-- state `W`: `call` says how.
module _ {W : Type 0} (call : Handler → Event → Bus × W → Bus × W) where
  -- The loop over `handlers[evt.topic]` with `n` rounds left, from index `h` on. Each round reads the
  -- table as the handlers before it left it.
  unfoldable pub deliver_from : ℕ → ℕ → Event → Bus × W → Bus × W
  deliver_from zero h evt s = s
  deliver_from (suc n) h evt s =
      let f = get_or (row s.0 evt.topic) h 0 in
      deliver_from n (h + 1) evt (if f == 0 then s else call f evt s)

  unfoldable pub deliver : Event → Bus × W → Bus × W
  deliver evt s = if ltb evt.topic max_topics then deliver_from max_handlers 0 evt s else s

  -- `while (q_count > 0)`: a handler may publish, so the loop runs on fuel. `none`: out of fuel.
  unfoldable pub eventbus_process : ℕ → Bus × W → Option (Bus × W)
  eventbus_process zero s = none
  eventbus_process (suc fuel) (b, w) =
      let evt = get_or b.queue b.q_head blank_event in
      let again = eventbus_process fuel (deliver evt (take_event b, w)) in
      if ltb 0 b.q_count then again else some (b, w)
