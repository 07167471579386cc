-- ===== src/CString/Compare.antt =====
-- What `strncmp_k` decides, and how it meets a string that `strncpy_k` has cut.
use new_attempt.Base.{
  ℕ, zero, suc, ◌-◌, ◌≤◌, ◌<◌, ◌≡◌, refl, ap, sym, ◌∙◌, ◌≢◌, ◌↔◌, true, false, some, List, [], ◌∷◌,
  arith, length, take, take-all, length-take, Bool-cases, inl, inr,
}
use new_attempt.Base.Int.{pos, sub_ℕ}
use new_attempt.CString.{first, rest, cstr, strncmp_loop, is_zero, same_name, strncpy_k}
use new_attempt.CString.Copy.{cstr-strncpy_k}

-- The strings of two buffers agree on their first `n` bytes.
abbrev pub SamePrefix : ℕ → List ℕ → List ℕ → Type 0
SamePrefix n a b = take n (cstr a) ≡ take n (cstr b)

take-cstr :
    (n : ℕ) (a : List ℕ) → first a ≢ 0 → take (suc n) (cstr a) ≡ first a ∷ take n (cstr (rest a))
unfolding cstr
take-cstr n [] h = absurd (h refl)
take-cstr n (c ∷ a) h = ground arith

take-cstr_zero : (n : ℕ) (a : List ℕ) → first a ≡ 0 → take n (cstr a) ≡ []
unfolding cstr
take-cstr_zero zero a h = refl
take-cstr_zero (suc n) [] h = refl
take-cstr_zero (suc n) (c ∷ a) h = ground arith

is_zero-pos : (n : ℕ) → n ≢ 0 → is_zero (pos n) ≡ false
is_zero-pos zero h = absurd (h refl)
is_zero-pos (suc n) h = refl

is_zero-sub : (a b : ℕ) → a ≢ b → is_zero (sub_ℕ a b) ≡ false
is_zero-sub a b h = ground (arith, is_zero-pos (a - b))

pub strncmp_loop_sound :
    (n : ℕ) (a b : List ℕ) → is_zero (strncmp_loop n a b) ≡ true → SamePrefix n a b
unfolding strncmp_loop
strncmp_loop_sound zero a b h = refl
strncmp_loop_sound (suc n) a b h = ground (
  arith,
  strncmp_loop_sound n (rest a) (rest b),
  take-cstr n a,
  take-cstr n b,
  take-cstr_zero (suc n) a,
  take-cstr_zero (suc n) b,
  is_zero-sub (first a) (first b),
)

pub strncmp_loop_complete :
    (n : ℕ) (a b : List ℕ) → SamePrefix n a b → is_zero (strncmp_loop n a b) ≡ true
unfolding strncmp_loop
strncmp_loop_complete zero a b h = refl
strncmp_loop_complete (suc n) a b h = ground (
  arith,
  strncmp_loop_complete n (rest a) (rest b),
  take-cstr n a,
  take-cstr n b,
  take-cstr_zero (suc n) a,
  take-cstr_zero (suc n) b,
)

-- `strncmp_k(a, b, n) == 0` exactly when the two strings agree on their first `n` bytes.
pub same_name_iff : (n : ℕ) (a b : List ℕ) → (same_name n a (some b) ≡ true) ↔ SamePrefix n a b
unfolding same_name
same_name_iff n a b = (strncmp_loop_sound n a b, strncmp_loop_complete n a b)

-- A stored name that matches one name matches the same names as that one.
pub same_name_congr :
    (n : ℕ) (a b c : List ℕ)
    → same_name n a (some b) ≡ true
    → same_name n a (some c) ≡ same_name n b (some c)
same_name_congr n a b c h = elim (Bool-cases (same_name n a (some c))) [
  | inl e ↦ e ∙ sym ((same_name_iff n b c).1 (sym same ∙ (same_name_iff n a c).0 e))
  | inr e ↦ elim (Bool-cases (same_name n b (some c))) [
    | inl f ↦ (same_name_iff n a c).1 (same ∙ (same_name_iff n b c).0 f) ∙ sym f
    | inr f ↦ e ∙ sym f
  ]
]
  where
    same : SamePrefix n a b
    same = (same_name_iff n a b).0 h

-- Two names that agree match the same stored names.
pub same_name_same :
    (n : ℕ) (a b c : List ℕ)
    → same_name n b (some c) ≡ true
    → same_name n a (some b) ≡ same_name n a (some c)
same_name_same n a b c h = elim (Bool-cases (same_name n a (some b))) [
  | inl e ↦ e ∙ sym ((same_name_iff n a c).1 ((same_name_iff n a b).0 e ∙ same))
  | inr e ↦ elim (Bool-cases (same_name n a (some c))) [
    | inl f ↦ (same_name_iff n a b).1 ((same_name_iff n a c).0 f ∙ sym same) ∙ sym f
    | inr f ↦ e ∙ sym f
  ]
]
  where
    same : SamePrefix n b c
    same = (same_name_iff n b c).0 h

module _ (n : ℕ) (dst b : List ℕ) (pos_n : 0 < n) (room : n ≤ length dst) where
  -- A name of fewer than `n` bytes is found again under the name it was stored with.
  pub same_name-strncpy_k :
      length (cstr b) < n → same_name n (strncpy_k dst (some b) n) (some b) ≡ true
  same_name-strncpy_k short =
      (same_name_iff n (strncpy_k dst (some b) n) b).1
        (rw (cstr-strncpy_k dst b n pos_n room, take-all (n - 1) (cstr b) (omega arith)))

  -- A longer name is cut by `strncpy_k`, and `strncmp_k` tells the cut name from the name.
  pub same_name-strncpy_k_long :
      n ≤ length (cstr b) → same_name n (strncpy_k dst (some b) n) (some b) ≡ false
  same_name-strncpy_k_long long =
      elim (Bool-cases (same_name n (strncpy_k dst (some b) n) (some b))) [
        | inl e ↦ absurd (
            omega (
              arith,
              ap length ((same_name_iff n (strncpy_k dst (some b) n) b).0 e),
              ap length (cstr-strncpy_k dst b n pos_n room),
              length-take n (cstr b),
              length-take (n - 1) (cstr b),
              length-take n (cstr (strncpy_k dst (some b) n)),
            ))
        | inr e ↦ e
      ]
