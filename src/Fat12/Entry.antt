-- ===== src/Fat12/Entry.antt =====
-- The packed 12-bit entries of the FAT: two clusters share three bytes.
use new_attempt.Base.{
  ◌∙◌, All, All-get_or_default, Bool-cases, List, ap, arith, get_or, get_or-set_ne, get_or-set_self,
  if◌then◌else◌, inl, inr, leb, length, length-set, refl, set, subst, suc, sym, ℕ, ◌%◌, ◌*◌, ◌+◌,
  ◌/◌, ◌<◌, ◌==◌, ◌≡◌, ◌≢◌, ◌≤◌, ◌⊎◌,
}
use new_attempt.Fat12.{offset_of, fat12_set_cluster, fat12_next_cluster, fat_bytes}

abbrev pub IsByte : ℕ → Type 0
IsByte b = b < 256

-- Two writes side by side, read back at any index.
get_or-set-set :
    (l : List ℕ) (o j u v : ℕ)
    → suc o < length l
    → get_or (set (set l o u) (o + 1) v) j 0
      ≡ (if j == o + 1 then v else if j == o then u else get_or l j 0)
get_or-set-set l o j u v h = ground (
  arith,
  get_or-set_self (set l o u) (o + 1) v 0,
  length-set l o u,
  get_or-set_ne (set l o u) (o + 1) j v 0,
  get_or-set_self l o u 0,
  get_or-set_ne l o j u 0,
)

next_eq :
    (fat : List ℕ) (c : ℕ)
    → fat12_next_cluster fat c ≡ (
        if leb fat_bytes (offset_of c + 1)
        then 0xFFF
        else if c % 2 == 1
        then (get_or fat (offset_of c) 0 + get_or fat (offset_of c + 1) 0 * 256) / 16
        else (get_or fat (offset_of c) 0 + get_or fat (offset_of c + 1) 0 * 256) % 0x1000)
unfolding fat12_next_cluster
next_eq fat c = refl

near :
    (c d : ℕ)
    → d ≢ c
    → ((offset_of d + 1 < offset_of c) ⊎ (offset_of c + 1 < offset_of d))
      ⊎ ((c % 2 ≡ 0) × (c + 1 ≡ d))
      ⊎ ((d % 2 ≡ 0) × (d + 1 ≡ c))
near c d ne = omega arith

module _ (fat : List ℕ) (c value : ℕ) (size : length fat ≡ fat_bytes) (bytes : All IsByte fat) where
  byte_at : (i : ℕ) → get_or fat i 0 < 256
  byte_at i = All-get_or_default IsByte fat i 0 bytes (omega arith)

  abbrev new_lo : ℕ
  new_lo = if c % 2 == 1 then get_or fat (offset_of c) 0 % 16 + value % 16 * 16 else value % 256

  abbrev new_hi : ℕ
  new_hi =
      if c % 2 == 1
      then value / 16 % 256
      else get_or fat (offset_of c + 1) 0 / 16 * 16 + value / 256 % 16

  set_form :
      offset_of c + 1 < fat_bytes
      → fat12_set_cluster fat c value ≡ set (set fat (offset_of c) new_lo) (offset_of c + 1) new_hi
  unfolding fat12_set_cluster
  set_form room = ground arith

  set_out : fat_bytes ≤ offset_of c + 1 → fat12_set_cluster fat c value ≡ fat
  unfolding fat12_set_cluster
  set_out out = ground arith

  -- The two bytes written, and the others as they were.
  byte_after :
      (j : ℕ)
      → offset_of c + 1 < fat_bytes
      → get_or (fat12_set_cluster fat c value) j 0 ≡ (
          if j == offset_of c + 1
          then new_hi
          else if j == offset_of c
          then new_lo
          else get_or fat j 0)
  byte_after j room =
      subst
        (λ l. get_or l j 0 ≡ (
          if j == offset_of c + 1
          then new_hi
          else if j == offset_of c
          then new_lo
          else get_or fat j 0))
        (sym (set_form room)) (get_or-set-set fat (offset_of c) j new_lo new_hi (omega arith))

  -- The entry just written reads back.
  pub next-set_self :
      offset_of c + 1 < fat_bytes
      → value < 0x1000
      → fat12_next_cluster (fat12_set_cluster fat c value) c ≡ value
  next-set_self room small = ground (
    arith,
    next_eq (fat12_set_cluster fat c value) c,
    byte_after (offset_of c) room,
    byte_after (offset_of c + 1) room,
    byte_at (offset_of c),
    byte_at (offset_of c + 1),
  )

  -- An entry that shares no byte with the one written.
  next-set_far :
      (d : ℕ)
      → offset_of c + 1 < fat_bytes
      → (offset_of d + 1 < offset_of c) ⊎ (offset_of c + 1 < offset_of d)
      → fat12_next_cluster (fat12_set_cluster fat c value) d ≡ fat12_next_cluster fat d
  next-set_far d room h = elim h [
    | inl lt ↦ far_eq (byte_lt (offset_of d) (omega arith)) (byte_lt (offset_of d + 1) lt)
    | inr lt ↦ far_eq (byte_gt (offset_of d) lt) (byte_gt (offset_of d + 1) (omega arith))
  ]
    where
      byte_lt :
          (j : ℕ) → j < offset_of c → get_or (fat12_set_cluster fat c value) j 0 ≡ get_or fat j 0
      byte_lt j lt = ground (arith, byte_after j room)

      byte_gt :
          (j : ℕ)
          → offset_of c + 1 < j
          → get_or (fat12_set_cluster fat c value) j 0 ≡ get_or fat j 0
      byte_gt j lt = ground (arith, byte_after j room)

      far_eq :
          get_or (fat12_set_cluster fat c value) (offset_of d) 0 ≡ get_or fat (offset_of d) 0
          → get_or (fat12_set_cluster fat c value) (offset_of d + 1) 0
            ≡ get_or fat (offset_of d + 1) 0
          → fat12_next_cluster (fat12_set_cluster fat c value) d ≡ fat12_next_cluster fat d
      far_eq e f = ground (arith, next_eq (fat12_set_cluster fat c value) d, next_eq fat d)

  -- The two neighbours share the middle one of three bytes.
  next-set_after :
      c % 2 ≡ 0
      → offset_of c + 1 < fat_bytes
      → fat12_next_cluster (fat12_set_cluster fat c value) (c + 1) ≡ fat12_next_cluster fat (c + 1)
  next-set_after h room = ground (
    arith,
    next_eq (fat12_set_cluster fat c value) (c + 1),
    next_eq fat (c + 1),
    byte_after (offset_of (c + 1)) room,
    byte_after (offset_of (c + 1) + 1) room,
    byte_at (offset_of c + 1),
  )

  next-set_before :
      (d : ℕ)
      → d % 2 ≡ 0
      → d + 1 ≡ c
      → offset_of c + 1 < fat_bytes
      → fat12_next_cluster (fat12_set_cluster fat c value) d ≡ fat12_next_cluster fat d
  next-set_before d h e room = ground (
    arith,
    next_eq (fat12_set_cluster fat c value) d,
    next_eq fat d,
    byte_after (offset_of d) room,
    byte_after (offset_of d + 1) room,
    byte_at (offset_of d + 1),
  )

  next-set_inside :
      (d : ℕ)
      → offset_of c + 1 < fat_bytes
      → d ≢ c
      → fat12_next_cluster (fat12_set_cluster fat c value) d ≡ fat12_next_cluster fat d
  next-set_inside d room ne = elim (near c d ne) [
    | inl far ↦ next-set_far d room far
    | inr (inl (h, e)) ↦
        subst (λ x. fat12_next_cluster (fat12_set_cluster fat c value) x ≡ fat12_next_cluster fat x)
          e (next-set_after h room)
    | inr (inr (h, e)) ↦ next-set_before d h e room
  ]

  -- Every other entry stays, the neighbour in the shared byte too.
  pub next-set_ne :
      (d : ℕ)
      → d ≢ c
      → fat12_next_cluster (fat12_set_cluster fat c value) d ≡ fat12_next_cluster fat d
  next-set_ne d ne = elim (Bool-cases (leb fat_bytes (offset_of c + 1))) [
    | inl out ↦ ap (λ l. fat12_next_cluster l d) (set_out (ground arith))
    | inr inside ↦ next-set_inside d (ground arith) ne
  ]

pub length-fat12_set_cluster :
    (fat : List ℕ) (c value : ℕ) → length (fat12_set_cluster fat c value) ≡ length fat
unfolding fat12_set_cluster
length-fat12_set_cluster fat c value = elim (Bool-cases (leb fat_bytes (offset_of c + 1))) [
  | inl out ↦ rw (out, fat12_set_cluster) refl
  | inr inside ↦ elim (Bool-cases (c % 2 == 1)) [
    | inl odd ↦
        rw (inside, odd, fat12_set_cluster)
          (length-set _ (offset_of c + 1) _ ∙ length-set fat (offset_of c) _)
    | inr even ↦
        rw (inside, even, fat12_set_cluster)
          (length-set _ (offset_of c + 1) _ ∙ length-set fat (offset_of c) _)
  ]
]
