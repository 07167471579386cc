-- ===== src/Env/Text.antt =====
-- The text form of the registry: what `env_save` writes, `env_load` reads back.
use new_attempt.Base.{
  nil_of_length, All, Bool-cases, List, [], ap, arith, if◌then◌else◌, inl, inr, length,
  length-append, refl, some, suc, sym, zero, ℕ, ◌++◌, ◌+◌, ◌-◌, ◌<◌, ◌==◌, ◌∙◌, ◌∷◌, ◌≡◌, ◌≢◌, ◌≤◌,
}
use new_attempt.Env.{
  first, env_text, rest, strlen_k, set_var, cstr, load_loop, scan_line, scan_key, save_loop, line,
  EnvTable, EnvVar,
}
use mathlib.Core.List.{append_assoc, append-nil}
use new_attempt.CString.Copy.{strlen_k-cstr}

abbrev KeyByte : ℕ → Type 0
KeyByte c = (c ≢ b'=') × (c ≢ 10)

abbrev ValueByte : ℕ → Type 0
ValueByte c = c ≢ 10

-- The key holds no '=' and no line end, the value no line end.
pub record IsPlain (v : EnvVar) : Type 0 where
  pub key_plain : All KeyByte (cstr v.key)
  pub value_plain : All ValueByte (cstr v.value)

-- The lines of the variables that are set.
unfoldable pub text_of : List EnvVar → List ℕ
text_of [] = []
text_of (v ∷ vs) = if v.is_set then line v ++ text_of vs else text_of vs

-- The variables that are set, stored one after the other.
unfoldable pub set_all : EnvTable → List EnvVar → EnvTable
set_all t [] = t
set_all t (v ∷ vs) = set_all (if v.is_set then (set_var t (cstr v.key) (cstr v.value)).1 else t) vs

length-line :
    (v : EnvVar) → length (line v) ≡ strlen_k (some v.key) + 1 + strlen_k (some v.value) + 1
unfolding line
length-line v = omega (
  arith,
  length-append (cstr v.key) (b'=' ∷ (cstr v.value ++ (10 ∷ []))),
  length-append (cstr v.value) (10 ∷ []),
  strlen_k-cstr v.key,
  strlen_k-cstr v.value,
)

save_loop-text_of :
    (vs : List EnvVar) (out : List ℕ)
    → length out + length (text_of vs) < 512
    → save_loop vs out ≡ out ++ text_of vs
unfolding save_loop text_of
save_loop-text_of [] out h = sym (append-nil out)
save_loop-text_of (v ∷ vs) out h = elim (Bool-cases v.is_set) [
  | inl e ↦ ground (
    arith,
    length-line v,
    length-append (line v) (text_of vs),
    length-append out (line v),
    save_loop-text_of vs (out ++ line v),
    append_assoc out (line v) (text_of vs),
  )
  | inr e ↦ ground (arith, save_loop-text_of vs out, nil_of_length (text_of vs), append-nil out)
]

scan_key-append : (k r : List ℕ) → All KeyByte k → scan_key (k ++ (b'=' ∷ r)) ≡ (k, b'=' ∷ r)
unfolding scan_key
scan_key-append [] r h = refl
scan_key-append (c ∷ k) r h = ground (arith, scan_key-append k r h.1)

scan_line-append : (k r : List ℕ) → All ValueByte k → scan_line (k ++ (10 ∷ r)) ≡ (k, 10 ∷ r)
unfolding scan_line
scan_line-append [] r h = refl
scan_line-append (c ∷ k) r h = ground (arith, scan_line-append k r h.1)

length-scan_key : (s : List ℕ) → length (scan_key s).1 ≤ length s
unfolding scan_key
length-scan_key [] = omega arith
length-scan_key (c ∷ s) = ground (arith, length-scan_key s)

length-scan_line : (s : List ℕ) → length (scan_line s).1 ≤ length s
unfolding scan_line
length-scan_line [] = omega arith
length-scan_line (c ∷ s) = ground (arith, length-scan_line s)

-- One line of text is one variable.
load_loop-line :
    (fuel : ℕ) (k v r : List ℕ) (t : EnvTable)
    → All KeyByte k
    → All ValueByte v
    → load_loop (suc fuel) (k ++ (b'=' ∷ (v ++ (10 ∷ r)))) t ≡ load_loop fuel r (set_var t k v).1
unfolding load_loop
load_loop-line fuel [] v r t hk hv =
    rw (scan_key-append [] (v ++ (10 ∷ r)) hk, scan_line-append v r hv)
load_loop-line fuel (c ∷ k) v r t hk hv =
    rw (scan_key-append (c ∷ k) (v ++ (10 ∷ r)) hk, scan_line-append v r hv)

length-rest : (s : List ℕ) → length (rest s) ≡ length s - 1
length-rest [] = omega arith
length-rest (c ∷ s) = omega arith

-- What is left after a line is shorter, since a key or the byte behind it was passed.
after-lt :
    (c : ℕ) (s : List ℕ) → length (rest (scan_line (rest (scan_key (c ∷ s)).1)).1) < length (c ∷ s)
after-lt c s = omega (
  arith,
  length-rest (scan_line (rest (scan_key (c ∷ s)).1)).1,
  length-scan_line (rest (scan_key (c ∷ s)).1),
  length-rest (scan_key (c ∷ s)).1,
  length-scan_key (c ∷ s),
)

skip-lt : (c : ℕ) (s : List ℕ) → length (rest (scan_line (scan_key (c ∷ s)).1).1) < length (c ∷ s)
skip-lt c s = omega (
  arith,
  length-rest (scan_line (scan_key (c ∷ s)).1).1,
  length-scan_line (scan_key (c ∷ s)).1,
  length-scan_key (c ∷ s),
)

-- More rounds than bytes are enough for the loop of `env_load`, whatever the file holds.
pub load_loop_total :
    (fuel : ℕ) (s : List ℕ) (t : EnvTable)
    → length s < fuel
    → (u : EnvTable) × (load_loop fuel s t ≡ some u)
unfolding load_loop
load_loop_total zero s t h = absurd (omega arith)
load_loop_total (suc fuel) [] t h = (t, refl)
load_loop_total (suc fuel) (c ∷ s) t h =
    let (k, r) = scan_key (c ∷ s) in
    let after = rest (scan_line (rest r)).1 in
    let skip = rest (scan_line r).1 in
    elim (Bool-cases (first r == b'=')) [
      | inl e ↦ rw e (
          load_loop_total fuel after (set_var t k (scan_line (rest r)).0).1
            (omega (arith, after-lt c s)))
      | inr e ↦ rw e (load_loop_total fuel skip t (omega (arith, skip-lt c s)))
    ]

load_loop-nil : (fuel : ℕ) (t : EnvTable) → load_loop (suc fuel) [] t ≡ some t
unfolding load_loop
load_loop-nil fuel t = refl

line-append :
    (k v r : List ℕ) → (k ++ (b'=' ∷ (v ++ (10 ∷ [])))) ++ r ≡ k ++ (b'=' ∷ (v ++ (10 ∷ r)))
line-append k v r =
    append_assoc k (b'=' ∷ (v ++ (10 ∷ []))) r
    ∙ ap (λ s. k ++ (b'=' ∷ s)) (append_assoc v (10 ∷ []) r)

-- A registry's text, read back into a registry.
load_loop-text_of :
    (fuel : ℕ) (vs : List EnvVar) (t : EnvTable)
    → All IsPlain vs
    → length vs < fuel
    → load_loop fuel (text_of vs) t ≡ some (set_all t vs)
unfolding text_of set_all line
load_loop-text_of zero vs t h lt = absurd (omega arith)
load_loop-text_of (suc fuel) [] t h lt = load_loop-nil fuel t
load_loop-text_of (suc fuel) (v ∷ vs) t h lt = elim (Bool-cases v.is_set) [
  | inl e ↦
      rw
        (
          e,
          line-append (cstr v.key) (cstr v.value) (text_of vs),
          load_loop-line fuel (cstr v.key) (cstr v.value) (text_of vs) t h.0.key_plain
              h.0.value_plain,
        )
        (load_loop-text_of fuel vs (set_var t (cstr v.key) (cstr v.value)).1 h.1 (omega arith))
  | inr e ↦ rw e (load_loop-text_of (suc fuel) vs t h.1 (omega arith))
]

-- If the text of the registry has fewer than 512 bytes, and no key holds '=' or a line end and no
-- value a line end, then the loop of `env_load`, with more rounds than variables, reads what
-- `env_save` writes: it stores each variable that is set, in the order of the slots.
pub load_loop-env_text :
    (fuel : ℕ) (t u : EnvTable)
    → All IsPlain t
    → length (text_of t) < 512
    → length t < fuel
    → load_loop fuel (env_text t) u ≡ some (set_all u t)
unfolding env_text
load_loop-env_text fuel t u h small lt =
    rw (save_loop-text_of t [] (omega arith)) (load_loop-text_of fuel t u h lt)

pub env_text-text_of : (t : EnvTable) → length (text_of t) < 512 → env_text t ≡ text_of t
unfolding env_text
env_text-text_of t short = save_loop-text_of t [] (omega arith)

-- More fuel gives the same result.
pub load_loop_more :
    (f g : ℕ) (s : List ℕ) (t v : EnvTable)
    → f ≤ g
    → load_loop f s t ≡ some v
    → load_loop g s t ≡ some v
unfolding load_loop
load_loop_more zero g s t v h e = cc
load_loop_more (suc f) zero s t v h e = absurd (omega arith)
load_loop_more (suc f) (suc g) [] t v h e = e
load_loop_more (suc f) (suc g) (c ∷ s) t v h e =
    let (k, r) = scan_key (c ∷ s) in
    let after = rest (scan_line (rest r)).1 in
    let skip = rest (scan_line r).1 in
    elim (Bool-cases (first r == b'=')) [
      | inl sep ↦ rw sep (
          load_loop_more f g after (set_var t k (scan_line (rest r)).0).1 v (omega arith)
            (rw sep at e))
      | inr line_end ↦ rw line_end (load_loop_more f g skip t v (omega arith) (rw line_end at e))
    ]

-- The loop of `env_load` on the text of the registry, with a round for every byte and one more.
pub load_loop-text_of_bytes :
    (t u : EnvTable)
    → All IsPlain t
    → length (text_of t) < 512
    → load_loop (suc (length (text_of t))) (text_of t) u ≡ some (set_all u t)
load_loop-text_of_bytes t u plain short =
    let n = length (text_of t) in
    let (v, e) = load_loop_total (suc n) (text_of t) u (omega arith) in
    let more = load_loop_more (suc n) (suc n + length t) (text_of t) u v (omega arith) e in
    let wanted =
      ap (λ s. load_loop (suc n + length t) s u) (sym (env_text-text_of t short))
      ∙ load_loop-env_text (suc n + length t) t u plain short (omega arith) in
    e ∙ sym more ∙ wanted
