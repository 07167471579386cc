-- ===== src/Loader/Once.antt =====
-- A module of modules/loader.c is loaded once.
use new_attempt.Base.{
  Bool-cases, Option-cases, ap, false, find_index, find_index-set_same, find_index_lt, get_or,
  get_or-set_self, inl, inr, none, refl, some, true, ℕ, ◌∙◌, ◌≡◌,
}
use new_attempt.Base.Int.{negsuc, pos, ℤ}
use new_attempt.Loader.{
  ModuleEntry, mark, blank_entry, CharPtr, load_entry, Registry, named, loader_load,
}

module _ {W : Type 0} (load : ℕ → W → ℤ × W) where
  load_again :
      (r : Registry) (w : W) (name : CharPtr) (i : ℕ)
      → find_index (named name) r ≡ some i
      → (get_or r i blank_entry).loaded ≡ true
      → loader_load load (r, w) name ≡ (pos 0, (r, w))
  unfolding loader_load load_entry
  load_again r w name i e l = rw (e, loader_load, l) refl

  find-mark :
      (r : Registry) (name : CharPtr) (i : ℕ)
      → find_index (named name) (mark r i true) ≡ find_index (named name) r
  unfolding named
  find-mark r name i = find_index-set_same (named name) r i _ blank_entry refl

  load_missing :
      (r : Registry) (w : W) (name : CharPtr)
      → find_index (named name) r ≡ none
      → loader_load load (r, w) name ≡ (negsuc 0, (r, w))
  unfolding loader_load
  load_missing r w name e = rw (e, loader_load) refl

  load_fresh :
      (r : Registry) (w : W) (name : CharPtr) (i : ℕ)
      → find_index (named name) r ≡ some i
      → (get_or r i blank_entry).loaded ≡ false
      → (loader_load load (r, w) name).0 ≡ pos 0
      → (loader_load load (r, w) name).1.0 ≡ mark r i true
  unfolding loader_load load_entry
  load_fresh r w name i e l = rw (e, loader_load, l) (λ h. rw h refl)

  load_marks :
      (r : Registry) (w : W) (name : CharPtr)
      → (loader_load load (r, w) name).0 ≡ pos 0
      → (i : ℕ) × (find_index (named name) (loader_load load (r, w) name).1.0 ≡ some i)
        × ((get_or (loader_load load (r, w) name).1.0 i blank_entry).loaded ≡ true)
  load_marks r w name h = elim (Option-cases (find_index (named name) r)) [
    | inl e ↦ absurd (cc (h, ap (λ (x : ℤ × (Registry × W)). x.0) (load_missing r w name e)))
    | inr (i, e) ↦ elim (Bool-cases (get_or r i blank_entry).loaded) [
      | inl l ↦
          let same = ap (λ (x : ℤ × (Registry × W)). x.1.0) (load_again r w name i e l) in
          (i, rw same e, rw same l)
      | inr l ↦
          let marked = load_fresh r w name i e l h in
          (
            i,
            rw marked (find-mark r name i ∙ e),
            rw marked (
                ap (λ (x : ModuleEntry). x.loaded)
                  (get_or-set_self r i _ blank_entry (find_index_lt (named name) r i e))),
          )
    ]
  ]

  -- A `loader_load` that returns 0 has loaded the module: a second one returns 0 and changes nothing,
  -- neither the registry nor what the load functions work on.
  pub loader_load-loader_load :
      (r : Registry) (w : W) (name : CharPtr)
      → (loader_load load (r, w) name).0 ≡ pos 0
      → loader_load load (loader_load load (r, w) name).1 name
        ≡ (pos 0, (loader_load load (r, w) name).1)
  loader_load-loader_load r w name h =
      let (i, found, l) = load_marks r w name h in
      load_again (loader_load load (r, w) name).1.0 (loader_load load (r, w) name).1.1 name i found
        l
