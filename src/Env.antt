-- ===== src/Env.antt =====
-- env/env.h and env/env.c: the registry of environment variables, and its text form on disk.
pub mod Lookup
pub mod Text
pub mod Disk
pub mod Persist
mod Tests
use new_attempt.Base.{
  Bool, List, Option, [], false, find_index, get_or, if◌then◌else◌, leb, length, map, none, not,
  replicate, set, some, suc, true, zero, ℕ, ◌&&◌, ◌++◌, ◌+◌, ◌==◌, ◌||◌, ◌∷◌,
}
use new_attempt.CString.{first, rest, strlen_k, cstr, codes, CharPtr, strncpy_k, same_name}
use new_attempt.Base.Int.{negsuc, pos, ℤ}

abbrev pub max_vars : ℕ
max_vars = 16

abbrev pub key_len : ℕ
key_len = 16

abbrev pub val_len : ℕ
val_len = 32

-- `env_var_t`; the field `set` is 0 or 1.
pub record EnvVar : Type 0 where
  pub key : List ℕ
  pub value : List ℕ
  pub is_set : Bool

-- `env_table`
abbrev pub EnvTable : Type 0
EnvTable = List EnvVar

abbrev pub blank_var : EnvVar
blank_var = record { key = replicate key_len 0; value = replicate val_len 0; is_set = false }

abbrev pub var_at : EnvTable → ℕ → EnvVar
var_at t i = get_or t i blank_var

-- The test of the search loops.
unfoldable pub hit : List ℕ → EnvVar → Bool
hit key v = v.is_set && same_name key_len v.key (some key)

unfoldable pub unset : EnvVar → Bool
unset v = not v.is_set

unfoldable pub updated : EnvVar → List ℕ → EnvVar
updated v value = record v { value = strncpy_k v.value (some value) val_len }

unfoldable pub inserted : EnvVar → List ℕ → List ℕ → EnvVar
inserted v key value = record {
  key = strncpy_k v.key (some key) key_len;
  value = strncpy_k v.value (some value) val_len;
  is_set = true;
}

-- `env_set` for pointers that are not NULL.
unfoldable pub set_var : EnvTable → List ℕ → List ℕ → ℤ × EnvTable
set_var t key value = elim (find_index (hit key) t) [
  | some i ↦ (pos 0, set t i (updated (var_at t i) value))
  | none ↦ elim (find_index unset t) [
    | some i ↦ (pos 0, set t i (inserted (var_at t i) key value))
    | none ↦ (negsuc 0, t)
  ]
]

unfoldable pub env_set : EnvTable → CharPtr → CharPtr → ℤ × EnvTable
unfolding set_var
env_set t none value = (negsuc 0, t)
env_set t (some key) none = (negsuc 0, t)
env_set t (some key) (some value) = set_var t key value

-- The result is the buffer of the value, `none` for NULL.
unfoldable pub env_get : EnvTable → CharPtr → CharPtr
env_get t none = none
env_get t (some key) = elim (find_index (hit key) t) [
  | some i ↦ some (var_at t i).value
  | none ↦ none
]

abbrev cleared : EnvVar → EnvVar
cleared v = record v { is_set = false }

unfoldable pub env_init : EnvTable → EnvTable
unfolding set_var
env_init t =
    (set_var (set_var (map cleared t) (codes "OS_NAME") (codes "AI Aura OS")).1 (codes "OS_VERSION")
      (codes "1.0.0")).1

-- The line "KEY=VALUE\n" of a variable.
unfoldable pub line : EnvVar → List ℕ
line v = cstr v.key ++ (b'=' ∷ (cstr v.value ++ (10 ∷ [])))

-- The loop of `env_save` over the table, with the bytes written so far; `pos` is their number.
unfoldable pub save_loop : List EnvVar → List ℕ → List ℕ
save_loop [] out = out
save_loop (v ∷ vs) out =
    if leb 511 (length out)
    then out
    else if not v.is_set
    then save_loop vs out
    else (let k = strlen_k (some v.key) in
        let n = strlen_k (some v.value) in
        let more = save_loop vs (out ++ line v) in
        if leb 512 (length out + k + 1 + n + 1) then out else more)

-- The bytes that `env_save` hands to `fat12_write_file`.
unfoldable pub env_text : EnvTable → List ℕ
unfolding save_loop
env_text t = save_loop t []

-- `while (i < n && buf[i] != '=' && buf[i] != '\n') i++;`: the bytes passed, and those left.
unfoldable pub scan_key : List ℕ → List ℕ × List ℕ
scan_key [] = ([], [])
scan_key (c ∷ s) =
    let (k, r) = scan_key s in if c == b'=' || c == 10 then ([], c ∷ s) else (c ∷ k, r)

-- `while (i < n && buf[i] != '\n') i++;`
unfoldable pub scan_line : List ℕ → List ℕ × List ℕ
scan_line [] = ([], [])
scan_line (c ∷ s) = let (k, r) = scan_line s in if c == 10 then ([], c ∷ s) else (c ∷ k, r)

-- The loop of `env_load` over the bytes from `i` on, on fuel: `none` when it runs out.
unfoldable pub load_loop : ℕ → List ℕ → EnvTable → Option EnvTable
load_loop zero s t = none
load_loop (suc fuel) s t =
    let (key, r) = scan_key s in
    let (value, after) = scan_line (rest r) in
    let skipped = load_loop fuel (rest (scan_line r).1) t in
    let stored = load_loop fuel (rest after) (set_var t key value).1 in
    elim s [ [] ↦ some t | _ ↦ if first r == b'=' then stored else skipped ]
