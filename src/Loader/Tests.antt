-- ===== src/Loader/Tests.antt =====
-- The registry of the source, with load functions that count their calls.
use new_attempt.Base.{[], false, find_index, refl, some, ℕ, ◌+◌, ◌∷◌, ◌≡◌}
use new_attempt.Loader.{named, load_entry, loader_load, Registry}
use new_attempt.Base.Int.{pos, ℤ}
use new_attempt.CString.{same_name, codes, CharPtr}
use new_attempt.Loader.Once.{loader_load-loader_load}

abbrev module_registry : Registry
module_registry =
    record { name = codes "hello"; load = 16; loaded = false }
    ∷ record { name = codes "aura_core"; load = 32; loaded = false }
    ∷ []

abbrev counting : ℕ → ℕ → ℤ × ℕ
counting f n = (pos 0, n + 1)

abbrev core_name : CharPtr
core_name = some (codes "aura_core")

core_loads : (loader_load counting (module_registry, 0) core_name).0 ≡ pos 0
unfolding loader_load load_entry find_index named same_name
core_loads = refl

loader_load-loader_load_example :
    loader_load counting (loader_load counting (module_registry, 0) core_name).1 core_name
    ≡ (pos 0, (loader_load counting (module_registry, 0) core_name).1)
loader_load-loader_load_example =
    loader_load-loader_load counting module_registry 0 core_name core_loads
