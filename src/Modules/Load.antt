-- ===== src/Modules/Load.antt =====
-- The load functions of the built-in plugins: what they leave in the plugin table.
use new_attempt.Base.{
  find_index-set_same, length-set, arith, ◌∙◌, ap, find_index-set_new, find_index_lt,
  get_or-set_self, refl, none, ◌==◌, false, true, ◌≡◌, some, find_index, ℕ, set,
}
use new_attempt.Base.Int.{incr, at_least, pos}
use new_attempt.Modules.{
  adapter_net_register, mod_hello_load, net_desc, hello_desc, mod_aura_core_load, net_init,
  hello_init, core_init, eventbus_publish, Bus, call, register_and_activate, Status, PluginDesc,
  System, Console, core_desc,
}
use new_attempt.Plugin.{
  set_state, PluginSlot, is_loaded, blank_slot, plugin_register, plugin_activate, run_init,
  register, plugin_max, registered, plugin_name_len, active, named, plugin_find, Plugins, slot_free,
  slot_at,
}
use new_attempt.Status.{ok}
use new_attempt.CString.{CharPtr, same_name}
use new_attempt.EventBus.{topic_plugin_loaded}

-- A plugin called `desc.name` is active, with that descriptor, in slot `i`.
pub record IsActive (desc : PluginDesc) (p : Plugins) (i : ℕ) : Type 0 where
  pub found : plugin_find p (some desc.name) ≡ some i
  pub described : (slot_at p i).desc ≡ desc
  pub activated : (slot_at p i).state ≡ active

-- Slot `i` is the next to be filled, and no plugin has the name.
pub record HasRoom (desc : PluginDesc) (p : Plugins) (i : ℕ) : Type 0 where
  pub next : find_index slot_free p.plugin_table ≡ some i
  pub below : at_least plugin_max p.plugin_count_val ≡ false
  pub fresh : plugin_find p (some desc.name) ≡ none

-- The plugins with `desc` in slot `i`, loaded at the tick `now`, and then active.
abbrev pub with_loaded : Plugins → ℕ → PluginDesc → ℕ → Plugins
with_loaded p i desc now = record {
  plugin_table = set p.plugin_table i (registered desc now);
  plugin_count_val = incr p.plugin_count_val;
}

abbrev pub with_plugin : Plugins → ℕ → PluginDesc → ℕ → Plugins
with_plugin p i desc now = set_state (with_loaded p i desc now) i active

-- A new plugin goes to the first free slot, and a `PLUGIN_LOADED` event is published.
plugin_register_new :
    (now : ℕ) (p : Plugins) (b : Bus) (desc : PluginDesc) (i : ℕ)
    → HasRoom desc p i
    → plugin_register now (p, b) (some desc) ≡ (
      ok,
      (
        record {
          plugin_table = set p.plugin_table i (registered desc now);
          plugin_count_val = incr p.plugin_count_val;
        },
        (eventbus_publish now b topic_plugin_loaded i).1,
      ),
    )
unfolding plugin_register register
plugin_register_new now p b desc i r = rw (r.below, r.fresh, r.next) refl

-- A loaded plugin whose `init` succeeds and leaves the plugins alone is active.
plugin_activate_new :
    {W : Type 0} (call : ℕ → Plugins × Bus × W → Status × (Plugins × Bus × W)) (p : Plugins)
    (b b1 : Bus) (w w1 : W) (name : CharPtr) (i : ℕ)
    → plugin_find p name ≡ some i
    → is_loaded (slot_at p i).state ≡ true
    → ((slot_at p i).desc.init == 0) ≡ false
    → call (slot_at p i).desc.init (p, b, w) ≡ (ok, (p, b1, w1))
    → plugin_activate call (p, b, w) name ≡ (ok, (set_state p i active, b1, w1))
unfolding plugin_activate run_init
plugin_activate_new call p b b1 w w1 name i found loaded has_init runs =
    rw (found, loaded, has_init, runs, plugin_activate, run_init) refl

module _ {R : Type 0} (other : ℕ → System R → Status × System R) (now : ℕ) where
  -- A descriptor whose `init` returns AURA_OK, takes the console from `w` to `w1` and leaves all else alone.
  pub record IsLoadable (desc : PluginDesc) (w w1 : Console R) : Type 0 where
    pub itself : same_name plugin_name_len desc.name (some desc.name) ≡ true
    pub has_init : (desc.init == 0) ≡ false
    pub runs : (p : Plugins) (b : Bus) → call other now desc.init (p, b, w) ≡ (ok, (p, b, w1))

  named-registered :
      (desc : PluginDesc) (d : PluginDesc)
      → same_name plugin_name_len d.name (some desc.name) ≡ true
      → named (some desc.name) (registered d now) ≡ true
  unfolding named registered
  named-registered desc d e = rw e refl

  -- The plugin stands in slot `i`, active, and one event was published.
  pub register_and_activate_eq :
      (desc : PluginDesc) (p : Plugins) (b : Bus) (w w1 : Console R) (i : ℕ)
      → IsLoadable desc w w1
      → HasRoom desc p i
      → register_and_activate other now desc (p, b, w)
        ≡ (ok, (with_plugin p i desc now, (eventbus_publish now b topic_plugin_loaded i).1, w1))
  unfolding register_and_activate registered plugin_find named
  register_and_activate_eq desc p b w w1 i l r =
      let new = registered desc now in
      let lt = find_index_lt slot_free p.plugin_table i r.next in
      let p1 = with_loaded p i desc now in
      let b1 = (eventbus_publish now b topic_plugin_loaded i).1 in
      let here : slot_at p1 i ≡ new = get_or-set_self p.plugin_table i new blank_slot lt in
      let found : plugin_find p1 (some desc.name) ≡ some i =
        find_index-set_new (named (some desc.name)) p.plugin_table i new
          (named-registered desc desc l.itself) r.fresh lt in
      let fields = λ (s : PluginSlot). s.desc.init in
      let started =
        plugin_activate_new (call other now) p1 b1 b1 w w1 (some desc.name) i found
          (ap (λ (s : PluginSlot). is_loaded s.state) here)
          (ap (λ (s : PluginSlot). s.desc.init == 0) here ∙ l.has_init)
          (ap (λ f. call other now f (p1, b1, w)) (ap fields here) ∙ l.runs p1 b1) in
      rw (plugin_register_new now p b desc i r, started) refl

  with_plugin-IsActive :
      (desc : PluginDesc) (p : Plugins) (i : ℕ)
      → same_name plugin_name_len desc.name (some desc.name) ≡ true
      → HasRoom desc p i
      → IsActive desc (with_plugin p i desc now) i
  unfolding registered plugin_find named
  with_plugin-IsActive desc p i itself r =
      let new = registered desc now in
      let lt = find_index_lt slot_free p.plugin_table i r.next in
      let p1 = with_loaded p i desc now in
      let here : slot_at p1 i ≡ new = get_or-set_self p.plugin_table i new blank_slot lt in
      let found : plugin_find p1 (some desc.name) ≡ some i =
        find_index-set_new (named (some desc.name)) p.plugin_table i new
          (named-registered desc desc itself) r.fresh lt in
      let kept =
        get_or-set_self p1.plugin_table i (record (slot_at p1 i) { state = active }) blank_slot
          (omega (arith, length-set p.plugin_table i new, lt)) in
      record {
        found =
            find_index-set_same (named (some desc.name)) p1.plugin_table i
              (record (slot_at p1 i) { state = active }) blank_slot
              (rw (ap (λ (s : PluginSlot). s.state) here) refl)
            ∙ found;
        described = ap (λ (s : PluginSlot). s.desc) kept ∙ ap (λ (s : PluginSlot). s.desc) here;
        activated = ap (λ (s : PluginSlot). s.state) kept;
      }

  -- The plugin is active in slot `i`, the number of plugins is one more, and the console is that which
  -- `init` left.
  pub register_and_activate_lem :
      (desc : PluginDesc) (p : Plugins) (b : Bus) (w w1 : Console R) (i : ℕ)
      → IsLoadable desc w w1
      → HasRoom desc p i
      → ((register_and_activate other now desc (p, b, w)).0 ≡ ok)
        × IsActive desc (register_and_activate other now desc (p, b, w)).1.0 i
        × ((register_and_activate other now desc (p, b, w)).1.0.plugin_count_val
            ≡ incr p.plugin_count_val)
        × ((register_and_activate other now desc (p, b, w)).1.2 ≡ w1)
  register_and_activate_lem desc p b w w1 i l r =
      rw (register_and_activate_eq desc p b w w1 i l r)
        (refl, with_plugin-IsActive desc p i l.itself r, refl, refl)

  pub core_desc-IsLoadable :
      (w : Console R) → IsLoadable core_desc w (record w { screen = (core_init w.screen).1 })
  unfolding call core_init same_name
  core_desc-IsLoadable w = record { itself = refl; has_init = refl; runs = λ p b. refl }

  pub hello_desc-IsLoadable :
      (w : Console R) → IsLoadable hello_desc w (record w { screen = (hello_init w.screen).1 })
  unfolding call hello_init same_name
  hello_desc-IsLoadable w = record { itself = refl; has_init = refl; runs = λ p b. refl }

  pub net_desc-IsLoadable :
      (w : Console R) → IsLoadable net_desc w (record w { screen = (net_init w.screen).1 })
  unfolding call net_init same_name
  net_desc-IsLoadable w = record { itself = refl; has_init = refl; runs = λ p b. refl }

  -- Where the table has room and no plugin of the name, each load function succeeds: its plugin is active in
  -- the first free slot, with its descriptor, and the number of plugins is one more.
  pub mod_aura_core_load-IsActive :
      (p : Plugins) (b : Bus) (w : Console R) (i : ℕ)
      → HasRoom core_desc p i
      → HasRoom hello_desc p i
      → HasRoom net_desc p i
      → (((mod_aura_core_load other now (p, b, w)).0 ≡ pos 0)
          × IsActive core_desc (mod_aura_core_load other now (p, b, w)).1.0 i
          × ((mod_aura_core_load other now (p, b, w)).1.0.plugin_count_val
              ≡ incr p.plugin_count_val))
        × (((mod_hello_load other now (p, b, w)).0 ≡ pos 0)
            × IsActive hello_desc (mod_hello_load other now (p, b, w)).1.0 i
            × ((mod_hello_load other now (p, b, w)).1.0.plugin_count_val ≡ incr p.plugin_count_val))
        × (IsActive net_desc (adapter_net_register other now (p, b, w)).0 i
            × ((adapter_net_register other now (p, b, w)).0.plugin_count_val
                ≡ incr p.plugin_count_val))
  unfolding mod_aura_core_load mod_hello_load adapter_net_register
  mod_aura_core_load-IsActive p b w i r_core r_hello r_net =
      let (core_ok, core_active, core_count, _) =
        register_and_activate_lem core_desc p b w _ i (core_desc-IsLoadable w) r_core in
      let (hello_ok, hello_active, hello_count, _) =
        register_and_activate_lem hello_desc p b w _ i (hello_desc-IsLoadable w) r_hello in
      let (net_ok, net_active, net_count, _) =
        register_and_activate_lem net_desc p b w _ i (net_desc-IsLoadable w) r_net in
      (
        (rw core_ok refl, core_active, core_count),
        (rw hello_ok refl, hello_active, hello_count),
        (net_active, net_count),
      )
