-- ===== src/Fat12/Dirent.antt =====
-- The directory entries of env/fat12.c: what is written is read back, and other entries stay.
use new_attempt.Base.{
  List, [], ap, arith, drop, drop-put_at_after, get_or-append, get_or-take, inl, inr, length,
  length-append, put_at, refl, replicate, subst, sym, take, take-all, take-append_of_length,
  take-drop-put_at, take-drop-put_at_before, take-take, ℕ, ◌%◌, ◌*◌, ◌++◌, ◌+◌, ◌/◌, ◌<◌, ◌^◌, ◌∙◌,
  ◌∷◌, ◌≡◌, ◌≤◌, ◌⊎◌,
}
use new_attempt.Fat12.{DirEntry, dirent_bytes, dirent_at}

-- An entry is a function of its 32 bytes.
dirent_at-take :
    (sector : List ℕ) (off : ℕ) → dirent_at (take 32 (drop off sector)) 0 ≡ dirent_at sector off
unfolding dirent_at
dirent_at-take sector off =
    let e = drop off sector in
    rw
      (
        take-take 11 32 e (omega arith),
        get_or-take 32 11 e 0 (omega arith),
        get_or-take 32 26 e 0 (omega arith),
        get_or-take 32 27 e 0 (omega arith),
        get_or-take 32 28 e 0 (omega arith),
        get_or-take 32 29 e 0 (omega arith),
        get_or-take 32 30 e 0 (omega arith),
        get_or-take 32 31 e 0 (omega arith),
      )
      refl

pub dirent_at_congr :
    (s t : List ℕ) (i j : ℕ)
    → take 32 (drop i s) ≡ take 32 (drop j t)
    → dirent_at s i ≡ dirent_at t j
dirent_at_congr s t i j e =
    sym (dirent_at-take s i) ∙ ap (λ b. dirent_at b 0) e ∙ dirent_at-take t j

-- The bytes behind the name.
abbrev entry_tail : ℕ → ℕ → List ℕ
entry_tail cluster len =
    0x20
    ∷ (replicate 14 0
        ++ (cluster % 0x100
            ∷ cluster / 0x100 % 0x100
            ∷ len % 0x100
            ∷ len / 0x100 % 0x100
            ∷ len / 0x10000 % 0x100
            ∷ len / 0x1000000 % 0x100
            ∷ []))

pub length-dirent_bytes :
    (fat83 : List ℕ) (cluster len : ℕ)
    → length fat83 ≡ 11
    → length (dirent_bytes fat83 cluster len) ≡ 32
unfolding dirent_bytes
length-dirent_bytes fat83 cluster len e =
    omega (arith, length-append fat83 (entry_tail cluster len))

-- The entry of a file: a name of 11 bytes, the archive attribute, the first cluster and the size.
abbrev pub file_entry : List ℕ → ℕ → ℕ → DirEntry
file_entry fat83 cluster len = record { name = fat83; attr = 0x20; cluster = cluster; size = len }

dirent_at-dirent_bytes :
    (fat83 : List ℕ) (cluster len : ℕ)
    → length fat83 ≡ 11
    → cluster < 2 ^ 16
    → len < 2 ^ 32
    → dirent_at (dirent_bytes fat83 cluster len) 0 ≡ file_entry fat83 cluster len
unfolding dirent_at dirent_bytes
dirent_at-dirent_bytes fat83 cluster len e hc hl =
    let tail = entry_tail cluster len in
    let cluster_eq : cluster % 0x100 + cluster / 0x100 % 0x100 * 0x100 ≡ cluster = omega arith in
    let size_eq : len % 0x100
          + len / 0x100 % 0x100 * 0x100
          + len / 0x10000 % 0x100 * 0x10000
          + len / 0x1000000 % 0x100 * 0x1000000
        ≡ len =
      omega arith in
    rw
      (
        take-append_of_length 11 fat83 tail e,
        get_or-append fat83 tail 11 0 0 e,
        get_or-append fat83 tail 11 15 0 e,
        get_or-append fat83 tail 11 16 0 e,
        get_or-append fat83 tail 11 17 0 e,
        get_or-append fat83 tail 11 18 0 e,
        get_or-append fat83 tail 11 19 0 e,
        get_or-append fat83 tail 11 20 0 e,
        cluster_eq,
        size_eq,
      )
      refl

module _ (sector fat83 : List ℕ) (off cluster len : ℕ) (size : length fat83 ≡ 11) where
  -- The entry just written.
  pub dirent_at-put_at :
      off + 32 ≤ length sector
      → cluster < 2 ^ 16
      → len < 2 ^ 32
      → dirent_at (put_at sector off (dirent_bytes fat83 cluster len)) off
        ≡ file_entry fat83 cluster len
  dirent_at-put_at room hc hl =
      let bytes = dirent_bytes fat83 cluster len in
      let width = length-dirent_bytes fat83 cluster len size in
      dirent_at_congr _ (dirent_bytes fat83 cluster len) off 0 (
        subst (λ n. take n (drop off (put_at sector off bytes)) ≡ take n bytes) width
          (take-drop-put_at sector off bytes (omega (arith, width))
            ∙ sym (take-all _ bytes (omega arith))))
      ∙ dirent_at-dirent_bytes fat83 cluster len size hc hl

  -- An entry that shares no byte with it.
  pub dirent_at-put_at_ne :
      (i : ℕ)
      → (i + 32 ≤ off) ⊎ (off + 32 ≤ i)
      → dirent_at (put_at sector off (dirent_bytes fat83 cluster len)) i ≡ dirent_at sector i
  dirent_at-put_at_ne i h = elim h [
    | inl lt ↦ dirent_at_congr _ sector i i (take-drop-put_at_before sector off i 32 _ lt)
    | inr gt ↦ dirent_at_congr _ sector i i (
        ap (take 32) (
          drop-put_at_after sector off i _
            (omega (arith, length-dirent_bytes fat83 cluster len size))))
  ]
