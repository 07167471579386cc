-- ===== src/Loader.antt =====
-- modules/loader.h and modules/loader.c: the registry of modules. `load` is a parameter: the `int` of
-- an entry's load function and what it does to the rest of the kernel's state.
pub mod Once
mod Tests
use new_attempt.Base.{
  Bool, List, [], false, find_index, get_or, if◌then◌else◌, length, map, none, set, some, suc, true,
  zero, ℕ, ◌+◌,
}
use new_attempt.CString.{is_zero, same_name, CharPtr}
use new_attempt.Base.Int.{negsuc, pos, ℤ}

abbrev pub module_name_len : ℕ
module_name_len = 24

-- `module_entry_t`; `loaded` is 0 or 1. The entry with the name NULL that ends the table is left out.
pub record ModuleEntry : Type 0 where
  pub name : List ℕ
  pub load : ℕ
  pub loaded : Bool

-- `module_registry`
abbrev pub Registry : Type 0
Registry = List ModuleEntry

abbrev pub blank_entry : ModuleEntry
blank_entry = record { name = []; load = 0; loaded = false }

unfoldable pub named : CharPtr → ModuleEntry → Bool
named name e = same_name module_name_len e.name name

unfoldable pub loader_init : Registry → Registry
loader_init r = map (λ (e : ModuleEntry). record e { loaded = false }) r

abbrev pub mark : Registry → ℕ → Bool → Registry
mark r i loaded = set r i (record (get_or r i blank_entry) { loaded = loaded })

unfoldable pub loader_unload : Registry → CharPtr → ℤ × Registry
loader_unload r name = elim (find_index (named name) r) [
  | some i ↦ (pos 0, mark r i false)
  | none ↦ (negsuc 0, r)
]

module _ {W : Type 0} (load : ℕ → W → ℤ × W) where
  -- The branch of `loader_load` for the entry found.
  unfoldable pub load_entry : Registry × W → ℕ → ℤ × (Registry × W)
  load_entry (r, w) i =
      let e = get_or r i blank_entry in
      let (result, w1) = load e.load w in
      if e.loaded
      then (pos 0, (r, w))
      else (result, (if is_zero result then mark r i true else r, w1))

  unfoldable pub loader_load : Registry × W → CharPtr → ℤ × (Registry × W)
  unfolding load_entry
  loader_load (r, w) name = elim (find_index (named name) r) [
    | some i ↦ load_entry (r, w) i
    | none ↦ (negsuc 0, (r, w))
  ]

  -- The loop of `loader_load_all`, with the entries left.
  unfoldable pub load_all_loop : ℕ → ℕ → Registry × W → Registry × W
  unfolding loader_load
  load_all_loop zero i st = st
  load_all_loop (suc n) i st =
      let e = get_or st.0 i blank_entry in
      load_all_loop n (i + 1) (if e.loaded then st else (loader_load st (some e.name)).1)

  unfoldable pub loader_load_all : Registry × W → Registry × W
  unfolding load_all_loop
  loader_load_all st = load_all_loop (length st.0) 0 st
