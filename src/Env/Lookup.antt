-- ===== src/Env/Lookup.antt =====
-- The registry as a map: what `env_set` does to `env_get`.
use new_attempt.Base.{
  All, All-get_or_default, All-set, List, Option-cases, ap, arith, false, find_index,
  find_index-set_new, find_index-set_same, find_index_holds, find_index_lt, get_or-set_ne,
  get_or-set_self, inl, inr, length, length-set, none, refl, set, some, sym, take, true, ℕ, ◌-◌,
  ◌<◌, ◌∙◌, ◌≡◌,
}
use new_attempt.Env.{
  ℤ, strncpy_k, negsuc, same_name, unset, pos, val_len, cstr, hit, set_var, var_at, max_vars,
  key_len, env_set, env_get, inserted, updated, blank_var, EnvTable, EnvVar,
}
use new_attempt.CString.Copy.{cstr-strncpy_k, length-strncpy_k}
use new_attempt.CString.Compare.{same_name-strncpy_k, same_name_iff, same_name_congr}

pub record VarValid (v : EnvVar) : Type 0 where
  pub key_size : length v.key ≡ key_len
  pub value_size : length v.value ≡ val_len

pub record IsValid (t : EnvTable) : Type 0 where
  pub vars : All VarValid t
  pub slots : length t ≡ max_vars

pub blank-VarValid : VarValid blank_var
blank-VarValid = record { key_size = refl; value_size = refl }

var_at-VarValid : (t : EnvTable) (i : ℕ) → IsValid t → VarValid (var_at t i)
var_at-VarValid t i v = All-get_or_default VarValid t i blank_var v.vars blank-VarValid

updated-VarValid : {v : EnvVar} (value : List ℕ) → VarValid v → VarValid (updated v value)
unfolding updated
updated-VarValid {v} value w = ground (arith, length-strncpy_k v.value (some value) val_len)

inserted-VarValid : {v : EnvVar} (key value : List ℕ) → VarValid v → VarValid (inserted v key value)
unfolding inserted
inserted-VarValid {v} key value w = ground (
  arith,
  length-strncpy_k v.key (some key) key_len,
  length-strncpy_k v.value (some value) val_len,
)

set-IsValid : {t : EnvTable} (i : ℕ) (v : EnvVar) → IsValid t → VarValid v → IsValid (set t i v)
set-IsValid {t} i v w x = record {
  vars = All-set VarValid t i v w.vars x;
  slots = length-set t i v ∙ w.slots;
}

-- The three ways through `env_set`.
module _ (t : EnvTable) (key value : List ℕ) where
  set_var-old :
      (i : ℕ)
      → find_index (hit key) t ≡ some i
      → set_var t key value ≡ (pos 0, set t i (updated (var_at t i) value))
  unfolding set_var
  set_var-old i e = rw (e, set_var)

  set_var-new :
      (i : ℕ)
      → find_index (hit key) t ≡ none
      → find_index unset t ≡ some i
      → set_var t key value ≡ (pos 0, set t i (inserted (var_at t i) key value))
  unfolding set_var
  set_var-new i e f = rw (e, set_var, f)

  set_var-full :
      find_index (hit key) t ≡ none
      → find_index unset t ≡ none
      → set_var t key value ≡ (negsuc 0, t)
  unfolding set_var
  set_var-full e f = rw (e, set_var, f)

  pub set_var-IsValid : IsValid t → IsValid (set_var t key value).1
  set_var-IsValid v = elim (Option-cases (find_index (hit key) t)) [
    | inr (i, e) ↦
        rw (set_var-old i e) (set-IsValid i _ v (updated-VarValid value (var_at-VarValid t i v)))
    | inl e ↦ elim (Option-cases (find_index unset t)) [
      | inr (i, f) ↦
          rw (set_var-new i e f)
            (set-IsValid i _ v (inserted-VarValid key value (var_at-VarValid t i v)))
      | inl f ↦ rw (set_var-full e f) v
    ]
  ]

-- A lookup depends on the search for the key and on the value found.
env_get-some :
    (t : EnvTable) (key : List ℕ) (i : ℕ)
    → find_index (hit key) t ≡ some i
    → env_get t (some key) ≡ some (var_at t i).value
unfolding env_get
env_get-some t key i e = rw (e, env_get)

env_get_congr :
    (t u : EnvTable) (key : List ℕ)
    → find_index (hit key) u ≡ find_index (hit key) t
    → ((j : ℕ) → find_index (hit key) t ≡ some j → var_at u j ≡ var_at t j)
    → env_get u (some key) ≡ env_get t (some key)
unfolding env_get
env_get_congr t u key e h = elim (Option-cases (find_index (hit key) t)) [
  | inl f ↦ rw (e, f, env_get)
  | inr (j, f) ↦ rw (e, f, env_get, h j f)
]

module _ (t : EnvTable) (key value : List ℕ) (v : IsValid t) where
  hit-updated : (q : List ℕ) (i : ℕ) → hit q (updated (var_at t i) value) ≡ hit q (var_at t i)
  unfolding hit updated
  hit-updated q i = refl

  value-updated :
      (i : ℕ) → cstr (updated (var_at t i) value).value ≡ take (val_len - 1) (cstr value)
  unfolding updated
  value-updated i =
      cstr-strncpy_k _ value val_len (omega arith)
        (omega (arith, (var_at-VarValid t i v).value_size))

  value-inserted :
      (i : ℕ) → cstr (inserted (var_at t i) key value).value ≡ take (val_len - 1) (cstr value)
  unfolding inserted
  value-inserted i =
      cstr-strncpy_k _ value val_len (omega arith)
        (omega (arith, (var_at-VarValid t i v).value_size))

  hit-inserted :
      length (cstr key) < key_len
      → (q : List ℕ) (i : ℕ)
      → hit q (inserted (var_at t i) key value) ≡ same_name key_len key (some q)
  unfolding hit inserted
  hit-inserted short q i =
      same_name_congr key_len (strncpy_k (var_at t i).key (some key) key_len) key q (
        same_name-strncpy_k key_len (var_at t i).key key (omega arith)
          (omega (arith, (var_at-VarValid t i v).key_size)) short)

  hit-unset : (q : List ℕ) (i : ℕ) → find_index unset t ≡ some i → hit q (var_at t i) ≡ false
  unfolding hit unset
  hit-unset q i e = ground (arith, find_index_holds unset t i blank_var e)

  -- Two keys that find the same slot are the same key.
  hit-both :
      (q : List ℕ) (i : ℕ)
      → find_index (hit key) t ≡ some i
      → find_index (hit q) t ≡ some i
      → same_name key_len key (some q) ≡ true
  unfolding hit
  hit-both q i e f = ground (
    arith,
    find_index_holds (hit key) t i blank_var e,
    find_index_holds (hit q) t i blank_var f,
    same_name_congr key_len (var_at t i).key key q,
  )

env_get-env_set_all :
    (t : EnvTable) (key value : List ℕ)
    → IsValid t
    → length (cstr key) < key_len
    → (env_set t (some key) (some value)).0 ≡ pos 0
    → ((buf : List ℕ) × (env_get (env_set t (some key) (some value)).1 (some key) ≡ some buf)
        × (cstr buf ≡ take (val_len - 1) (cstr value)))
      × ((q : List ℕ)
          → same_name key_len key (some q) ≡ false
          → env_get (env_set t (some key) (some value)).1 (some q) ≡ env_get t (some q))
unfolding env_set
env_get-env_set_all t key value v short h = elim (Option-cases (find_index (hit key) t)) [
  | inr (i, e) ↦
      let found =
        find_index-set_same (hit key) t i (updated (var_at t i) value) blank_var
          (hit-updated t key value v key i) in
      let here =
        get_or-set_self t i (updated (var_at t i) value) blank_var
          (find_index_lt (hit key) t i e) in
      rw (set_var-old t key value i e) (
        (
          (updated (var_at t i) value).value,
          env_get-some _ key i (found ∙ e) ∙ ap (λ (x : EnvVar). some x.value) here,
          value-updated t key value v i,
        ),
        λ q ne.
            env_get_congr t _ q
              (find_index-set_same (hit q) t i _ blank_var (hit-updated t key value v q i))
              (λ j f.
                get_or-set_ne t i j _ blank_var
                  (λ same. cc (hit-both t key value v q i e (f ∙ ap some (sym same))))),
      )
  | inl e ↦ elim (Option-cases (find_index unset t)) [
    | inl f ↦ absurd (cc (sym h ∙ ap (λ (r : ℤ × EnvTable). r.0) (set_var-full t key value e f)))
    | inr (i, f) ↦
        let lt = find_index_lt unset t i f in
        let found =
          find_index-set_new (hit key) t i (inserted (var_at t i) key value)
            (hit-inserted t key value v short key i ∙ (same_name_iff key_len key key).1 refl) e
            lt in
        let here = get_or-set_self t i (inserted (var_at t i) key value) blank_var lt in
        rw (set_var-new t key value i e f) (
          (
            (inserted (var_at t i) key value).value,
            env_get-some _ key i found ∙ ap (λ (x : EnvVar). some x.value) here,
            value-inserted t key value v i,
          ),
          λ q ne.
              env_get_congr t _ q
                (find_index-set_same (hit q) t i _ blank_var
                  (hit-inserted t key value v short q i ∙ ne ∙ sym (hit-unset t key value v q i f)))
                (λ j g. get_or-set_ne t i j _ blank_var (λ same. cc (
                  hit-unset t key value v q i f,
                  find_index_holds (hit q) t i blank_var (g ∙ ap some (sym same)),
                ))),
        )
  ]
]

-- After an `env_set` that reports success under a key of fewer than 16 bytes, `env_get` of that key
-- finds the value, cut to 31 bytes, and every key that differs in its first 16 bytes gets what it got
-- before.
pub env_get-env_set :
    (t : EnvTable) (key value q : List ℕ)
    → IsValid t
    → length (cstr key) < key_len
    → (env_set t (some key) (some value)).0 ≡ pos 0
    → same_name key_len key (some q) ≡ false
    → ((buf : List ℕ) × (env_get (env_set t (some key) (some value)).1 (some key) ≡ some buf)
        × (cstr buf ≡ take (val_len - 1) (cstr value)))
      × (env_get (env_set t (some key) (some value)).1 (some q) ≡ env_get t (some q))
env_get-env_set t key value q v short h ne =
    let (here, others) = env_get-env_set_all t key value v short h in (here, others q ne)
