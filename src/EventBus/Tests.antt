-- ===== src/EventBus/Tests.antt =====
-- The event bus at boot, and the theorems at it.
use new_attempt.Base.{
  List, [], arith, find_index, get_or, refl, replicate, ring_items, set, some, ℕ, ◌++◌, ◌∷◌, ◌≡◌,
}
use new_attempt.EventBus.{
  ok, eventbus_unsubscribe, eventbus_process, max_handlers, blank_event, row, Event, max_topics,
  queue_depth, eventbus_subscribe, Handler, eventbus_publish, eventbus_init, Bus,
}
use new_attempt.EventBus.Valid.{eventbus_init-IsValid, IsValid}
use new_attempt.EventBus.Drain.{eventbus_process-run_events, drained, quiet, run_row, run_events}
use new_attempt.EventBus.Queue.{eventbus_publish_refines, publish_spec, pending}
use new_attempt.EventBus.Subscribe.{eventbus_unsubscribe-eventbus_subscribe, slot_of}

abbrev static : Bus
static = record {
  handlers = [];
  queue = replicate queue_depth blank_event;
  q_head = 0;
  q_tail = 0;
  q_count = 0;
}

abbrev booted : Bus
booted = record static { handlers = replicate max_topics (replicate max_handlers 0) }

booted-IsValid : IsValid booted
unfolding eventbus_init
booted-IsValid = eventbus_init-IsValid static refl

-- One event queued by the scheduler, and a handler at address 0x1000 of its topic.
abbrev busy_bus : Bus
busy_bus = record booted {
  handlers = set booted.handlers 4 (0x1000 ∷ 0 ∷ 0x2000 ∷ 0 ∷ 0 ∷ 0 ∷ 0 ∷ 0 ∷ []);
  queue = set booted.queue 63 (record { topic = 4; payload = 9; timestamp = 2 });
  q_head = 63;
  q_tail = 0;
  q_count = 1;
}

busy_bus-IsValid : IsValid busy_bus
busy_bus-IsValid = omega arith

eventbus_publish_refines_example :
    (((eventbus_publish 5 busy_bus 4 77).0, pending (eventbus_publish 5 busy_bus 4 77).1)
      ≡ publish_spec 5 (pending busy_bus) 4 77)
    × IsValid (eventbus_publish 5 busy_bus 4 77).1
    × ((eventbus_publish 5 busy_bus 4 77).1.handlers ≡ busy_bus.handlers)
eventbus_publish_refines_example = eventbus_publish_refines 5 4 77 busy_bus-IsValid

-- The handlers log their address and the event's payload.
abbrev log : Handler → Event → List (ℕ × ℕ) → List (ℕ × ℕ)
log f evt w = w ++ ((f, evt.payload) ∷ [])

eventbus_process-run_events_example :
    eventbus_process (quiet log) 2 (busy_bus, [])
    ≡ some (drained log busy_bus, (0x1000, 9) ∷ (0x2000, 9) ∷ [])
unfolding run_events run_row ring_items
eventbus_process-run_events_example =
    eventbus_process-run_events log 2 busy_bus [] busy_bus-IsValid (omega arith)

eventbus_unsubscribe-eventbus_subscribe_example :
    (i : ℕ) × (get_or (row busy_bus 4) i 0 ≡ 0)
    × (slot_of (eventbus_subscribe busy_bus 4 0x3000).1 4 0x3000 ≡ some i)
    × (eventbus_unsubscribe (eventbus_subscribe busy_bus 4 0x3000).1 4 0x3000 ≡ (ok, busy_bus))
unfolding eventbus_subscribe find_index
eventbus_unsubscribe-eventbus_subscribe_example =
    eventbus_unsubscribe-eventbus_subscribe 4 0x3000 busy_bus-IsValid refl refl
