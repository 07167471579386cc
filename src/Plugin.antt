-- ===== src/Plugin.antt =====
-- kernel/plugin.h and kernel/plugin.c: the table of plugins. A callback is its address, 0 for NULL; a
-- slot pointer is an index into the table.
pub mod Valid
mod Tests
use new_attempt.Base.{
  Bool, List, Option, false, find_index, get_or, if◌then◌else◌, map, none, not, replicate, set,
  some, suc, true, zero, ℕ, ◌%◌, ◌&&◌, ◌+◌, ◌==◌, ◌^◌,
}
use new_attempt.Base.Int.{incr, decr, at_least, pos, ℤ}
use new_attempt.Status.{noslot, ok, notfound, err, Status}
use new_attempt.CString.{same_name, CharPtr}
use new_attempt.EventBus.{topic_plugin_unloaded, topic_plugin_loaded, eventbus_publish, Bus}

abbrev pub plugin_max : ℕ
plugin_max = 16

abbrev pub plugin_name_len : ℕ
plugin_name_len = 24

-- `plugin_state_t`
pub data PluginState : Type 0 where
  unloaded loaded active error : PluginState

-- `plugin_type_t`
pub data PluginType : Type 0 where
  core driver service adapter : PluginType

-- `plugin_desc_t`
pub record PluginDesc : Type 0 where
  pub name : List ℕ
  pub version : List ℕ
  pub type : PluginType
  pub init : ℕ
  pub tick : ℕ
  pub shutdown : ℕ
  pub priv : ℕ

-- `plugin_slot_t`
pub record PluginSlot : Type 0 where
  pub desc : PluginDesc
  pub state : PluginState
  pub load_tick : ℕ
  pub tick_count : ℕ
  pub error_count : ℕ

-- The static state of plugin.c.
pub record Plugins : Type 0 where
  pub plugin_table : List PluginSlot
  pub plugin_count_val : ℤ

abbrev pub blank_slot : PluginSlot
blank_slot = record {
  desc = record {
    name = replicate plugin_name_len 0;
    version = replicate 8 0;
    type = core;
    init = 0;
    tick = 0;
    shutdown = 0;
    priv = 0;
  };
  state = unloaded;
  load_tick = 0;
  tick_count = 0;
  error_count = 0;
}

abbrev pub slot_at : Plugins → ℕ → PluginSlot
slot_at p i = get_or p.plugin_table i blank_slot

abbrev pub is_unloaded : PluginState → Bool
is_unloaded unloaded = true
is_unloaded _ = false

abbrev pub is_loaded : PluginState → Bool
is_loaded loaded = true
is_loaded _ = false

abbrev pub is_active : PluginState → Bool
is_active active = true
is_active _ = false

abbrev pub is_ok : Status → Bool
is_ok ok = true
is_ok _ = false

unfoldable pub slot_free : PluginSlot → Bool
slot_free s = is_unloaded s.state

-- The test of the loop in `plugin_find`.
unfoldable pub named : CharPtr → PluginSlot → Bool
named name s = not (is_unloaded s.state) && same_name plugin_name_len s.desc.name name

unfoldable pub plugin_find : Plugins → CharPtr → Option ℕ
plugin_find p name = find_index (named name) p.plugin_table

unfoldable pub plugin_manager_init : Plugins → Plugins
plugin_manager_init p = record {
  plugin_table =
      map (λ (s : PluginSlot). record s { state = unloaded; tick_count = 0; error_count = 0 })
        p.plugin_table;
  plugin_count_val = pos 0;
}

unfoldable pub plugin_count : Plugins → ℤ
plugin_count p = p.plugin_count_val

-- The slot that `plugin_register` fills; `now` is `g_tick_count`.
unfoldable pub registered : PluginDesc → ℕ → PluginSlot
registered desc now = record {
  desc = desc;
  state = loaded;
  load_tick = now;
  tick_count = 0;
  error_count = 0;
}

-- A change of slot `i`.
abbrev pub update_slot : Plugins → ℕ → PluginSlot → Plugins
update_slot p i s = record p { plugin_table = set p.plugin_table i s }

abbrev pub set_state : Plugins → ℕ → PluginState → Plugins
set_state p i state = update_slot p i (record (slot_at p i) { state = state })

-- `plugin_register` with a descriptor that is not NULL.
unfoldable pub register : ℕ → Plugins × Bus → PluginDesc → Status × (Plugins × Bus)
register now (p, b) desc =
    if at_least plugin_max p.plugin_count_val
    then (noslot, (p, b))
    else elim (plugin_find p (some desc.name)) [
      | some j ↦ (err, (p, b))
      | none ↦ elim (find_index slot_free p.plugin_table) [
        | none ↦ (noslot, (p, b))
        | some i ↦ (
          ok,
          (
            record {
              plugin_table = set p.plugin_table i (registered desc now);
              plugin_count_val = incr p.plugin_count_val;
            },
            (eventbus_publish now b topic_plugin_loaded i).1,
          ),
        )
      ]
    ]

unfoldable pub plugin_register : ℕ → Plugins × Bus → Option PluginDesc → Status × (Plugins × Bus)
unfolding register
plugin_register now st none = (err, st)
plugin_register now st (some desc) = register now st desc

unfoldable pub counted_error : PluginSlot → PluginSlot
counted_error s = record s { error_count = (s.error_count + 1) % 2 ^ 32 }

-- The slot after its `tick` has returned.
unfoldable pub ticked : Status → PluginSlot → PluginSlot
unfolding counted_error
ticked r s =
    let t : PluginSlot = record s { tick_count = (s.tick_count + 1) % 2 ^ 32 } in
    if is_ok r then t else counted_error t

-- The callbacks are code of other components: one may change the plugins, the bus and the rest of the
-- kernel's state `W`.
module _ {W : Type 0} (call : ℕ → Plugins × Bus × W → Status × (Plugins × Bus × W)) where
  -- `if (s->desc.shutdown) s->desc.shutdown();`
  unfoldable pub shut_down : ℕ → Plugins × Bus × W → Plugins × Bus × W
  shut_down i (p, b, w) =
      let f = (slot_at p i).desc.shutdown in if f == 0 then (p, b, w) else (call f (p, b, w)).1

  unfoldable pub plugin_unregister : ℕ → Plugins × Bus × W → CharPtr → Status × (Plugins × Bus × W)
  unfolding shut_down
  plugin_unregister now (p, b, w) name = elim (plugin_find p name) [
    | none ↦ (notfound, (p, b, w))
    | some i ↦
        let (p1, b1, w1) =
          if is_active (slot_at p i).state then shut_down i (p, b, w) else (p, b, w) in
        (
          ok,
          (
            record (set_state p1 i unloaded) { plugin_count_val = decr p1.plugin_count_val },
            (eventbus_publish now b1 topic_plugin_unloaded 0).1,
            w1,
          ),
        )
  ]

  -- The branch of `plugin_activate` for a plugin with an `init` function.
  unfoldable pub run_init : ℕ → Plugins × Bus × W → Status × (Plugins × Bus × W)
  unfolding counted_error
  run_init i (p, b, w) =
      let (r, (p1, b1, w1)) = call (slot_at p i).desc.init (p, b, w) in
      let failed : Plugins =
        update_slot p1 i (counted_error (record (slot_at p1 i) { state = error })) in
      if is_ok r then (ok, (set_state p1 i active, b1, w1)) else (r, (failed, b1, w1))

  unfoldable pub plugin_activate : Plugins × Bus × W → CharPtr → Status × (Plugins × Bus × W)
  unfolding run_init
  plugin_activate (p, b, w) name = elim (plugin_find p name) [
    | none ↦ (notfound, (p, b, w))
    | some i ↦
        let s = slot_at p i in
        if not (is_loaded s.state)
        then (err, (p, b, w))
        else if s.desc.init == 0
        then (ok, (set_state p i active, b, w))
        else run_init i (p, b, w)
  ]

  unfoldable pub plugin_deactivate : Plugins × Bus × W → CharPtr → Status × (Plugins × Bus × W)
  unfolding shut_down
  plugin_deactivate (p, b, w) name = elim (plugin_find p name) [
    | none ↦ (notfound, (p, b, w))
    | some i ↦
        let (p1, b1, w1) = shut_down i (p, b, w) in
        if not (is_active (slot_at p i).state)
        then (err, (p, b, w))
        else (ok, (set_state p1 i loaded, b1, w1))
  ]

  -- One round of `plugin_tick_all`.
  unfoldable pub tick_slot : ℕ → Plugins × Bus × W → Plugins × Bus × W
  unfolding ticked
  tick_slot i (p, b, w) =
      let s = slot_at p i in
      let (r, (p1, b1, w1)) = call s.desc.tick (p, b, w) in
      if is_active s.state && not (s.desc.tick == 0)
      then (update_slot p1 i (ticked r (slot_at p1 i)), b1, w1)
      else (p, b, w)

  unfoldable pub tick_loop : ℕ → ℕ → Plugins × Bus × W → Plugins × Bus × W
  tick_loop zero i st = st
  tick_loop (suc n) i st = tick_loop n (i + 1) (tick_slot i st)

  unfoldable pub plugin_tick_all : Plugins × Bus × W → Plugins × Bus × W
  unfolding tick_loop
  plugin_tick_all st = tick_loop plugin_max 0 st
