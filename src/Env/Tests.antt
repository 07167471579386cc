-- ===== src/Env/Tests.antt =====
-- The registry at boot, and the theorems at it.
use new_attempt.Base.{
  ◌+◌, ltb, Bool, All, All-replicate, List, [], arith, false, find_index, refl, replicate, some,
  true, ℕ, ◌++◌, ◌∷◌, ◌≡◌,
}
use new_attempt.Env.{
  inserted, key_len, pos, updated, unset, blank_var, line, env_get, hit, env_init, max_vars,
  env_set, env_text, EnvTable,
}
use new_attempt.Env.Lookup.{env_get-env_set, blank-VarValid, VarValid, IsValid}
use new_attempt.CString.{strlen_k, strncpy_k, same_name, cstr, codes}
use new_attempt.Env.Text.{IsPlain}
use new_attempt.Fat12.Volume.{Volume}

abbrev static : EnvTable
static = replicate max_vars blank_var

static-IsValid : IsValid static
static-IsValid = record {
  vars = All-replicate VarValid max_vars blank_var blank-VarValid;
  slots = refl;
}

boot_text :
    env_text (env_init static)
    ≡ codes "OS_NAME=AI Aura OS" ++ (10 ∷ codes "OS_VERSION=1.0.0") ++ (10 ∷ [])
unfolding env_text env_init find_index hit unset updated inserted same_name strncpy_k line cstr
    strlen_k
boot_text = refl

abbrev color : List ℕ
color = codes "COLOR"

color_set : (env_set static (some color) (some (codes "green"))).0 ≡ pos 0
unfolding env_set find_index hit unset
color_set = refl

color_path : same_name key_len color (some (codes "PATH")) ≡ false
unfolding same_name
color_path = refl

env_get-env_set_example :
    ((buf : List ℕ) × (env_get (env_set static (some color) (some (codes "green"))).1 (some color)
        ≡ some buf)
      × (cstr buf ≡ codes "green"))
    × (env_get (env_set static (some color) (some (codes "green"))).1 (some (codes "PATH"))
        ≡ env_get static (some (codes "PATH")))
unfolding cstr
env_get-env_set_example =
    env_get-env_set static color (codes "green") (codes "PATH") static-IsValid (omega arith)
      color_set color_path

-- Two variables, one of them set.
abbrev vars : EnvTable
vars =
    record { key = codes "A" ++ (0 ∷ []); value = codes "1=2"; is_set = true }
    ∷ record { key = codes "B"; value = []; is_set = false }
    ∷ []

vars-IsPlain : All IsPlain vars
unfolding cstr
vars-IsPlain = omega arith

-- A disk whose reads fail from sector 19 on, and that drops what is written.
abbrev read_fat : ℕ → ℕ → List ℕ → Bool × List ℕ × ℕ
read_fat d lba buf = (ltb lba 19, replicate 512 0, d + 1)

abbrev write_none : ℕ → ℕ → List ℕ → Bool × ℕ
write_none d lba buf = (true, d)

abbrev volume : Volume
volume = record { sector_buf = []; fat = replicate 4608 0; loaded = true }
