-- ===== src/EventBus/Subscribe.antt =====
-- The table of handlers: what a subscription adds, an unsubscription takes away.
use new_attempt.Base.{
  ==-refl, ==_iff, Option, Option-cases, [], ap, arith, false, find_index, find_index-set_new,
  find_index_holds, find_index_lt, get_or, get_or-set_self, inl, inr, leb, length, none, refl, set,
  set-get_or, set-set, some, ℕ, ◌<◌, ◌==◌, ◌∙◌, ◌≡◌,
}
use new_attempt.EventBus.{
  ok, eventbus_unsubscribe, max_topics, eventbus_subscribe, row, Handler, Bus,
}
use new_attempt.EventBus.Valid.{IsValid}

-- A handler of a row of the table, at some slot.
abbrev pub slot_of : Bus → ℕ → Handler → Option ℕ
slot_of b topic handler = find_index (λ h. h == handler) (row b topic)

unsubscribe-eq :
    (b : Bus) (topic : ℕ) (handler : Handler) (i : ℕ)
    → topic < max_topics
    → (handler == 0) ≡ false
    → slot_of b topic handler ≡ some i
    → eventbus_unsubscribe b topic handler
      ≡ (ok, record b { handlers = set b.handlers topic (set (row b topic) i 0) })
unfolding eventbus_unsubscribe
unsubscribe-eq b topic handler i small nonzero e =
    let t : leb max_topics topic ≡ false = ground arith in rw (t, eventbus_unsubscribe, nonzero, e)

module _ {b : Bus} (topic : ℕ) (handler : Handler) (v : IsValid b) where
  abbrev put_handler : ℕ → Handler → Bus
  put_handler i h = record b { handlers = set b.handlers topic (set (row b topic) i h) }

  -- What a subscription that succeeds has found.
  subscribe-ok :
      (eventbus_subscribe b topic handler).0 ≡ ok
      → (i : ℕ) × (topic < max_topics)
        × ((handler == 0) ≡ false)
        × (slot_of b topic 0 ≡ some i)
        × ((eventbus_subscribe b topic handler).1 ≡ put_handler i handler)
  unfolding eventbus_subscribe
  subscribe-ok h = elim (Option-cases (slot_of b topic 0)) [
    | inl e ↦ absurd (ground arith)
    | inr (i, e) ↦ (i, ground arith, ground arith, e, ground arith)
  ]

  row-put :
      (i : ℕ) (h : Handler)
      → topic < max_topics
      → row (put_handler i h) topic ≡ set (row b topic) i h
  row-put i h small =
      get_or-set_self b.handlers topic (set (row b topic) i h) [] (omega (arith, v.topics))

  module _ (i : ℕ) (small : topic < max_topics) (nonzero : (handler == 0) ≡ false)
      (empty : slot_of b topic 0 ≡ some i) (absent : slot_of b topic handler ≡ none) where
    was_null : get_or (row b topic) i 0 ≡ 0
    was_null = (==_iff _ _).0 (find_index_holds (λ h. h == 0) (row b topic) i 0 empty)

    in_row : i < length (row b topic)
    in_row = find_index_lt (λ h. h == 0) (row b topic) i empty

    found-put : slot_of (put_handler i handler) topic handler ≡ some i
    found-put = rw (row-put i handler small) (
        find_index-set_new (λ h. h == handler) (row b topic) i handler (==-refl handler) absent
          in_row)

    row-back : set (set (row b topic) i handler) i 0 ≡ row b topic
    row-back = set-set (row b topic) i handler 0 ∙ set-get_or (row b topic) i 0 0 was_null in_row

    table-back :
        set
          (set b.handlers topic (set (row b topic) i handler))
          topic
          (set (row (put_handler i handler) topic) i 0)
        ≡ b.handlers
    table-back =
        ap (λ r. set (set b.handlers topic (set (row b topic) i handler)) topic r)
          (ap (λ r. set r i 0) (row-put i handler small) ∙ row-back)
        ∙ set-set b.handlers topic (set (row b topic) i handler) (row b topic)
        ∙ set-get_or b.handlers topic (row b topic) [] refl (omega (arith, v.topics))

    unsubscribe-put : eventbus_unsubscribe (put_handler i handler) topic handler ≡ (ok, b)
    unsubscribe-put =
        unsubscribe-eq (put_handler i handler) topic handler i small nonzero found-put
        ∙ ap (λ t. (ok, record b { handlers = t })) table-back

  -- A handler that is not in a topic's row, and that `eventbus_subscribe` accepts, is in the row
  -- afterwards in a slot that was empty; `eventbus_unsubscribe` then takes it out, and leaves the bus
  -- as it was before the subscription.
  pub eventbus_unsubscribe-eventbus_subscribe :
      slot_of b topic handler ≡ none
      → (eventbus_subscribe b topic handler).0 ≡ ok
      → (i : ℕ) × (get_or (row b topic) i 0 ≡ 0)
        × (slot_of (eventbus_subscribe b topic handler).1 topic handler ≡ some i)
        × (eventbus_unsubscribe (eventbus_subscribe b topic handler).1 topic handler ≡ (ok, b))
  eventbus_unsubscribe-eventbus_subscribe absent h =
      let (i, small, nonzero, empty, after) = subscribe-ok h in
      (
        i,
        was_null i small nonzero empty absent,
        rw after (found-put i small nonzero empty absent),
        rw after (unsubscribe-put i small nonzero empty absent),
      )
