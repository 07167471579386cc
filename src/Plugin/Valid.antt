-- ===== src/Plugin/Valid.antt =====
-- The number of plugins that kernel/plugin.c keeps beside its table.
use new_attempt.Base.{
  Bool, Bool-cases, Option, Option-cases, ap, arith, count, count-set, false, find_index,
  find_index_holds, find_index_lt, inl, inr, length, length-set, none, not, refl, set, some, subst,
  suc, sym, true, weight, ℕ, ◌==◌, ◌∙◌, ◌≡◌,
}
use new_attempt.Plugin.{
  is_active, decr, incr, plugin_unregister, shut_down, unloaded, register, blank_slot, Status,
  set_state, at_least, slot_at, pos, Bus, PluginDesc, CharPtr, plugin_max, is_unloaded, plugin_find,
  plugin_register, registered, named, slot_free, Plugins, PluginSlot,
}

-- A slot in use.
unfoldable pub taken : PluginSlot → Bool
taken s = not (is_unloaded s.state)

pub record IsValid (p : Plugins) : Type 0 where
  pub slots : length p.plugin_table ≡ plugin_max
  pub counted : p.plugin_count_val ≡ pos (count taken p.plugin_table)

free_not_taken : (s : PluginSlot) → slot_free s ≡ true → taken s ≡ false
unfolding slot_free taken
free_not_taken s h = ap not h

named_taken : (s : PluginSlot) (name : CharPtr) → named name s ≡ true → taken s ≡ true
unfolding named taken
named_taken s name h = ground arith

register-count :
    (p : Plugins) (desc : PluginDesc) (now i : ℕ)
    → find_index slot_free p.plugin_table ≡ some i
    → count taken (set p.plugin_table i (registered desc now)) ≡ suc (count taken p.plugin_table)
unfolding taken registered
register-count p desc now i e = omega (
  arith,
  ap weight
      (free_not_taken (slot_at p i) (find_index_holds slot_free p.plugin_table i blank_slot e)),
  count-set taken p.plugin_table i (registered desc now) blank_slot
      (find_index_lt slot_free p.plugin_table i e),
)

-- `plugin_register` keeps the number of plugins equal to the number of slots in use, on every branch.
pub plugin_register-IsValid :
    (now : ℕ) {p : Plugins} (b : Bus) (desc : Option PluginDesc)
    → IsValid p
    → IsValid (plugin_register now (p, b) desc).1.0
unfolding plugin_register
plugin_register-IsValid now b none v = v
plugin_register-IsValid now {p} b (some desc) v =
    elim (Bool-cases (at_least plugin_max p.plugin_count_val)) [
      | inl e ↦ rw (e, register) v
      | inr e ↦ elim (Option-cases (plugin_find p (some desc.name))) [
        | inr (j, f) ↦ rw (e, f, register) v
        | inl f ↦ elim (Option-cases (find_index slot_free p.plugin_table)) [
          | inl g ↦ rw (e, f, g, register) v
          | inr (i, g) ↦
              rw (e, f, g, register)
                (record {
                  slots = length-set p.plugin_table i _ ∙ v.slots;
                  counted = ap incr v.counted ∙ ap pos (sym (register-count p desc now i g));
                })
        ]
      ]
    ]

unregister-count :
    (p : Plugins) (name : CharPtr) (i : ℕ)
    → plugin_find p name ≡ some i
    → count taken p.plugin_table ≡ suc (count taken (set_state p i unloaded).plugin_table)
unfolding taken plugin_find
unregister-count p name i e = omega (
  arith,
  ap weight (
      named_taken (slot_at p i) name (find_index_holds (named name) p.plugin_table i blank_slot e)),
  count-set taken p.plugin_table i (record (slot_at p i) { state = unloaded }) blank_slot
      (find_index_lt (named name) p.plugin_table i e),
)

module _ {W : Type 0} (call : ℕ → Plugins × Bus × W → Status × (Plugins × Bus × W))
    (alone : (f : ℕ) (st : Plugins × Bus × W) → (call f st).1.0 ≡ st.0) where
  shut_down_alone : (i : ℕ) (st : Plugins × Bus × W) → (shut_down call i st).0 ≡ st.0
  unfolding shut_down
  shut_down_alone i (p, b, w) = elim (Bool-cases ((slot_at p i).desc.shutdown == 0)) [
    | inl e ↦ rw e refl
    | inr e ↦ rw e (alone (slot_at p i).desc.shutdown (p, b, w))
  ]

  unregistered-IsValid :
      (p : Plugins) (name : CharPtr) (i : ℕ)
      → plugin_find p name ≡ some i
      → IsValid p
      → IsValid (record (set_state p i unloaded) { plugin_count_val = decr p.plugin_count_val })
  unfolding plugin_find
  unregistered-IsValid p name i e v = record {
    slots = length-set p.plugin_table i _ ∙ v.slots;
    counted = ap decr (v.counted ∙ ap pos (unregister-count p name i e));
  }

  -- For callbacks that leave the plugins alone, `plugin_unregister` keeps the number of plugins equal to
  -- the number of slots in use, on every branch.
  pub plugin_unregister-IsValid :
      (now : ℕ) (p : Plugins) (b : Bus) (w : W) (name : CharPtr)
      → IsValid p
      → IsValid (plugin_unregister call now (p, b, w) name).1.0
  unfolding plugin_unregister
  plugin_unregister-IsValid now p b w name v = elim (Option-cases (plugin_find p name)) [
    | inl e ↦ rw (e, plugin_unregister) v
    | inr (i, e) ↦ elim (Bool-cases (is_active (slot_at p i).state)) [
      | inl f ↦
          rw (e, f, plugin_unregister)
            (subst
              (λ q.
                IsValid
                  (record (set_state q i unloaded) { plugin_count_val = decr q.plugin_count_val }))
              (sym (shut_down_alone i (p, b, w))) (unregistered-IsValid p name i e v))
      | inr f ↦ rw (e, f, plugin_unregister) (unregistered-IsValid p name i e v)
    ]
  ]
