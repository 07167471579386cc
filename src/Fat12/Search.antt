-- ===== src/Fat12/Search.antt =====
-- The directory search of env/fat12.c on the entries alone, `dir i` being entry `i` of the root directory.
use new_attempt.Base.{
  ==-ne, Bool, Bool-cases, List, Option, ap, arith, false, if◌then◌else◌, inl, inr, none, not, refl,
  some, subst, suc, sym, true, zero, ℕ, ◌+◌, ◌<◌, ◌==◌, ◌||◌, ◌∙◌, ◌≡◌, ◌≢◌, ◌≤◌, ◌⊎◌,
}
use new_attempt.Fat12.{same_bytes, skipped, DirEntry}
use new_attempt.Fat12.Volume.{or_else, Search}
use new_attempt.CString.{first}

-- The rounds of the two loops that go on: an entry that is deleted, no file, or another name.
unfoldable pub passed : List ℕ → DirEntry → Bool
passed fat83 e = first e.name == 0xE5 || skipped e || not (same_bytes e.name fat83)

passed_deleted :
    (fat83 : List ℕ) (e : DirEntry) → (first e.name == 0xE5) ≡ true → passed fat83 e ≡ true
unfolding passed
passed_deleted fat83 e h = rw h refl

-- Whether the search of `fat12_read_file` stops at an entry, and finds it.
unfoldable pub lookup : (ℕ → DirEntry) → List ℕ → ℕ → ℕ → Option DirEntry
lookup dir fat83 zero i = none
lookup dir fat83 (suc n) i =
    let later = lookup dir fat83 n (i + 1) in
    if first (dir i).name == 0 then none else if passed fat83 (dir i) then later else some (dir i)

-- Phase 1 of `fat12_write_file`.
unfoldable pub scan : (ℕ → DirEntry) → List ℕ → ℕ → ℕ → Option ℕ → Search
scan dir fat83 zero i free = record { found = none; free_entry = free }
scan dir fat83 (suc n) i free =
    let c = first (dir i).name in
    let later = scan dir fat83 n (i + 1) (if c == 0xE5 then or_else free i else free) in
    if c == 0
    then record { found = none; free_entry = or_else free i }
    else if passed fat83 (dir i)
    then later
    else record { found = some (i, (dir i).cluster); free_entry = free }

-- The entry that `fat12_write_file` writes.
unfoldable pub target : Search → Option ℕ
target r = elim r.found [ some place ↦ some place.0 | none ↦ r.free_entry ]

-- The search goes on at every entry from `i` to `e`.
unfoldable pub Passes : (ℕ → DirEntry) → List ℕ → ℕ → ℕ → Type 0
Passes dir fat83 i e =
    (j : ℕ) → i ≤ j → j < e → (first (dir j).name ≢ 0) × (passed fat83 (dir j) ≡ true)

module _ (dir : ℕ → DirEntry) (fat83 : List ℕ) where
  Passes-none : (i : ℕ) → Passes dir fat83 i i
  unfolding Passes
  Passes-none i j lo hi = absurd (omega arith)

  Passes-more :
      (i e : ℕ)
      → first (dir i).name ≢ 0
      → passed fat83 (dir i) ≡ true
      → Passes dir fat83 (i + 1) e
      → Passes dir fat83 i e
  unfolding Passes
  Passes-more i e used pass rest j lo hi = elim (Bool-cases (i == j)) [
    | inl same ↦
        let eq : i ≡ j = ground arith in
        subst (λ k. (first (dir k).name ≢ 0) × (passed fat83 (dir k) ≡ true)) eq (used, pass)
    | inr other ↦ rest j (ground arith) hi
  ]

-- A search finds the entry that it reaches.
pub lookup_at :
    (dir : ℕ → DirEntry) (fat83 : List ℕ) (n i e : ℕ)
    → i ≤ e
    → e < i + n
    → Passes dir fat83 i e
    → first (dir e).name ≢ 0
    → passed fat83 (dir e) ≡ false
    → lookup dir fat83 n i ≡ some (dir e)
unfolding lookup Passes
lookup_at dir fat83 zero i e lo hi before some_name hit = absurd (omega arith)
lookup_at dir fat83 (suc n) i e lo hi before some_name hit = elim (Bool-cases (i == e)) [
  | inl same ↦
      let eq : e ≡ i = ground arith in
      subst (λ k. lookup dir fat83 (suc n) i ≡ some (dir k)) (sym eq)
        (rw
          (
            ==-ne _ 0 (subst (λ k. first (dir k).name ≢ 0) eq some_name),
            subst (λ k. passed fat83 (dir k) ≡ false) eq hit,
          )
          refl)
  | inr other ↦
      let (used, pass) = before i (omega arith) (ground arith) in
      rw (==-ne _ 0 used, pass)
        (lookup_at dir fat83 n (i + 1) e (ground arith) (omega arith)
          (λ j l h. before j (omega arith) h) some_name hit)
]

some_inj : {a b : ℕ} → some a ≡ some b → a ≡ b
some_inj h = cc

-- The free entry known before, or this one.
free_or_here :
    (dir : ℕ → DirEntry) (fat83 : List ℕ) (n i : ℕ) (free : Option ℕ) (e : ℕ)
    → 0 < n
    → or_else free i ≡ some e
    → (free ≡ some e) ⊎ ((i ≤ e) × (e < i + n) × Passes dir fat83 i e)
free_or_here dir fat83 n i (some f) e pos h = inl h
free_or_here dir fat83 n i none e pos h =
    let eq : i ≡ e = ground arith in
    inr (omega arith, omega arith, subst (Passes dir fat83 i) eq (Passes-none dir fat83 i))

-- The write goes to the free entry known before, or to one that the search reaches.
pub scan-target :
    (dir : ℕ → DirEntry) (fat83 : List ℕ) (n i : ℕ) (free : Option ℕ) (e : ℕ)
    → target (scan dir fat83 n i free) ≡ some e
    → (free ≡ some e) ⊎ ((i ≤ e) × (e < i + n) × Passes dir fat83 i e)
unfolding scan Passes target
scan-target dir fat83 zero i free e h = inl h
scan-target dir fat83 (suc n) i free e h = elim (Bool-cases (first (dir i).name == 0)) [
  | inl end ↦ free_or_here dir fat83 (suc n) i free e (omega arith) (rw end at h)
  | inr used ↦ elim (Bool-cases (first (dir i).name == 0xE5)) [
    | inl gone ↦
        elim (scan-target dir fat83 n (i + 1) (or_else free i) e
          (rw (used, gone, passed_deleted fat83 (dir i) gone) at h)) [
            | inl known ↦ free_or_here dir fat83 (suc n) i free e (omega arith) known
            | inr (lo, hi, rest) ↦ inr (
              omega arith,
              omega arith,
              Passes-more dir fat83 i e (ground arith) (passed_deleted fat83 (dir i) gone) rest,
            )
          ]
    | inr kept ↦ elim (Bool-cases (passed fat83 (dir i))) [
      | inl pass ↦ elim (scan-target dir fat83 n (i + 1) free e (rw (used, kept, pass) at h)) [
        | inl known ↦ inl known
        | inr (lo, hi, rest) ↦
            inr (omega arith, omega arith, Passes-more dir fat83 i e (ground arith) pass rest)
      ]
      | inr hit ↦
          let eq : i ≡ e = some_inj (rw (used, kept, hit) at h) in
          inr (omega arith, omega arith, subst (Passes dir fat83 i) eq (Passes-none dir fat83 i))
    ]
  ]
]

none-some : {p : ℕ × ℕ} → ◌≡◌ {A = Option (ℕ × ℕ)} none (some p) → ⊥
none-some h = cc

found_here :
    (dir : ℕ → DirEntry) (fat83 : List ℕ) (n i e c : ℕ)
    → first (dir i).name ≢ 0
    → passed fat83 (dir i) ≡ false
    → ◌≡◌ {A = Option (ℕ × ℕ)} (some (i, (dir i).cluster)) (some (e, c))
    → (e < i + suc n)
      × (c ≡ (dir e).cluster)
      × (first (dir e).name ≢ 0)
      × (passed fat83 (dir e) ≡ false)
found_here dir fat83 n i e c used hit eq =
    let same : i ≡ e = cc in
    let cluster : (dir i).cluster ≡ c = cc in
    (
      omega (arith, same),
      sym cluster ∙ ap (λ k. (dir k).cluster) same,
      subst (λ k. first (dir k).name ≢ 0) same used,
      subst (λ k. passed fat83 (dir k) ≡ false) same hit,
    )

-- An entry that is found has the name sought, and its cluster is reported.
pub scan_found :
    (dir : ℕ → DirEntry) (fat83 : List ℕ) (n i : ℕ) (free : Option ℕ) (e c : ℕ)
    → (scan dir fat83 n i free).found ≡ some (e, c)
    → (e < i + n)
      × (c ≡ (dir e).cluster)
      × (first (dir e).name ≢ 0)
      × (passed fat83 (dir e) ≡ false)
unfolding scan
scan_found dir fat83 zero i free e c h = cc
scan_found dir fat83 (suc n) i free e c h = elim (Bool-cases (first (dir i).name == 0)) [
  | inl end ↦ absurd (none-some (rw end at h))
  | inr used ↦ elim (Bool-cases (passed fat83 (dir i))) [
    | inl pass ↦
        let free' = if first (dir i).name == 0xE5 then or_else free i else free in
        let (room, cluster, name, hit) =
          scan_found dir fat83 n (i + 1) free' e c (rw (used, pass) at h) in
        (omega arith, cluster, name, hit)
    | inr hit ↦ found_here dir fat83 n i e c (ground arith) hit (rw (used, hit) at h)
  ]
]
