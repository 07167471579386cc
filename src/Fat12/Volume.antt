-- ===== src/Fat12/Volume.antt =====
-- The operations of env/fat12.c on a disk. `read` is `ata_read_sectors(lba, 1, buf)`: from the
-- bytes of the buffer, whether it succeeds, the bytes of the buffer afterwards and the disk; `write`
-- is `ata_write_sectors(lba, 1, buf)`. An entry's sector and offset are named by its index.
use new_attempt.Base.{
  put_at, Bool, List, Option, drop, if◌then◌else◌, min, none, not, replicate, some, suc, take, true,
  zero, ℕ, ◌*◌, ◌++◌, ◌+◌, ◌-◌, ◌==◌, ◌||◌,
}
use new_attempt.Fat12.{
  fat2_lba, same_bytes, skipped, dirent_bytes, fat1_lba, name_to_fat83, fat12_set_cluster,
  entry_off, dirent_at, root_entry_count, cluster_to_lba, fat_size_sectors, entry_sector, DirEntry,
  fat12_alloc_cluster, bytes_per_sector,
}
use new_attempt.Status.{err, ok, Status}
use new_attempt.Base.Int.{pos, negsuc, ℤ}
use new_attempt.CString.{first, CharPtr}

-- `s_sector_buf`, `s_fat_buf` and `s_fat_loaded`.
pub record Volume : Type 0 where
  pub sector_buf : List ℕ
  pub fat : List ℕ
  pub loaded : Bool

-- The part of the FAT buffer that a sector fills.
abbrev pub fat_sector : List ℕ → ℕ → List ℕ
fat_sector fat s = take bytes_per_sector (drop (s * bytes_per_sector) fat)

-- What the directory search of `fat12_write_file` leaves: the entry found with its cluster, and the
-- first free entry.
pub record Search : Type 0 where
  pub found : Option (ℕ × ℕ)
  pub free_entry : Option ℕ

abbrev pub or_else : Option ℕ → ℕ → Option ℕ
or_else none e = some e
or_else (some f) e = some f

-- Phase 2: the entry and the cluster to use; `none` for a full directory or a full disk.
unfoldable pub choose_cluster : List ℕ → Search → Option (ℕ × ℕ)
choose_cluster fat r = elim r.found [
  | some place ↦ some place
  | none ↦ elim r.free_entry [
    | none ↦ none
    | some e ↦ if fat12_alloc_cluster fat == 0 then none else some (e, fat12_alloc_cluster fat)
  ]
]

module _ {D : Type 0} (read : D → ℕ → List ℕ → Bool × List ℕ × D)
    (write : D → ℕ → List ℕ → Bool × D) where
  -- The loop of `fat12_init`, with the sectors left.
  unfoldable pub init_loop : ℕ → ℕ → Volume × D → Status × (Volume × D)
  init_loop zero s (v, d) = (ok, (record v { loaded = true }, d))
  init_loop (suc n) s (v, d) =
      let r = read d (fat1_lba + s) (fat_sector v.fat s) in
      let st : Volume × D = (record v { fat = put_at v.fat (s * bytes_per_sector) r.1 }, r.2) in
      let rest = init_loop n (s + 1) st in if r.0 then rest else (err, st)

  unfoldable pub fat12_init : Volume × D → Status × (Volume × D)
  unfolding init_loop
  fat12_init st = init_loop fat_size_sectors 0 st

  -- The inner loop of `fat12_flush_fat`, with the sectors left.
  unfoldable pub flush_loop : ℕ → ℕ → ℕ → List ℕ → D → Status × D
  flush_loop zero base s fat d = (ok, d)
  flush_loop (suc n) base s fat d =
      let w = write d (base + s) (fat_sector fat s) in
      let rest = flush_loop n base (s + 1) fat w.1 in if w.0 then rest else (err, w.1)

  unfoldable pub fat12_flush_fat : List ℕ → D → Status × D
  unfolding flush_loop
  fat12_flush_fat fat d =
      let (s, d1) = flush_loop fat_size_sectors fat1_lba 0 fat d in
      elim s [ ok ↦ flush_loop fat_size_sectors fat2_lba 0 fat d1 | _ ↦ (err, d1) ]

  -- `ata_read_sectors(lba, 1, s_sector_buf)`
  unfoldable pub read_sector : Volume × D → ℕ → Bool × (Volume × D)
  read_sector (v, d) lba =
      let r = read d lba v.sector_buf in (r.0, (record v { sector_buf = r.1 }, r.2))

  -- The entry found: its first sector is copied to `buf`.
  unfoldable pub read_data : DirEntry → List ℕ → ℕ → Volume × D → ℤ × List ℕ × (Volume × D)
  read_data de buf len st =
      let r = read_sector st (cluster_to_lba de.cluster) in
      let copy = min (min de.size len) bytes_per_sector in
      if r.0
      then (pos copy, take copy r.1.0.sector_buf ++ drop copy buf, r.1)
      else (negsuc 0, buf, r.1)

  -- The loop of `fat12_read_file`, with the entries left.
  unfoldable pub read_loop : ℕ → ℕ → List ℕ → List ℕ → ℕ → Volume × D → ℤ × List ℕ × (Volume × D)
  read_loop zero entry fat83 buf len st = (negsuc 0, buf, st)
  read_loop (suc n) entry fat83 buf len st =
      let r = read_sector st (entry_sector entry) in
      let de = dirent_at r.1.0.sector_buf (entry_off entry) in
      let later = read_loop n (entry + 1) fat83 buf len r.1 in
      if not r.0 || first de.name == 0
      then (negsuc 0, buf, r.1)
      else if first de.name == 0xE5 || skipped de || not (same_bytes de.name fat83)
      then later
      else read_data de buf len r.1

  -- The result and what `buf` holds afterwards.
  unfoldable pub fat12_read_file : CharPtr → CharPtr → ℕ → Volume × D → ℤ × CharPtr × (Volume × D)
  fat12_read_file (some name) (some buf) len st =
      let r = read_loop root_entry_count 0 (name_to_fat83 name) buf len st in
      if not st.0.loaded || len == 0 then (negsuc 0, some buf, st) else (r.0, some r.1, r.2)
  fat12_read_file none buf len st = (negsuc 0, buf, st)
  fat12_read_file (some name) none len st = (negsuc 0, none, st)

  -- Phase 1 of `fat12_write_file`, with the entries left; `none` for a failed read.
  unfoldable pub search_loop : ℕ → ℕ → List ℕ → Option ℕ → Volume × D → Option Search × (Volume × D)
  search_loop zero entry fat83 free st = (some (record { found = none; free_entry = free }), st)
  search_loop (suc n) entry fat83 free st =
      let r = read_sector st (entry_sector entry) in
      let de = dirent_at r.1.0.sector_buf (entry_off entry) in
      let c = first de.name in
      let later =
        search_loop n (entry + 1) fat83 (if c == 0xE5 then or_else free entry else free) r.1 in
      if not r.0
      then (none, r.1)
      else if c == 0
      then (some (record { found = none; free_entry = or_else free entry }), r.1)
      else if c == 0xE5 || skipped de || not (same_bytes de.name fat83)
      then later
      else (some (record { found = some (entry, de.cluster); free_entry = free }), r.1)

  -- Phase 4: the directory entry is written and, in phase 5, the FAT.
  unfoldable pub write_entry : List ℕ → ℕ → ℕ → ℕ → Volume × D → ℤ × (Volume × D)
  write_entry fat83 len entry cluster st =
      let r = read_sector st (entry_sector entry) in
      let sector = put_at r.1.0.sector_buf (entry_off entry) (dirent_bytes fat83 cluster len) in
      let v = record r.1.0 { sector_buf = sector } in
      let w = write r.1.1 (entry_sector entry) sector in
      let f = fat12_flush_fat v.fat w.1 in
      if not r.0
      then (negsuc 0, r.1)
      else if not w.0
      then (negsuc 0, (v, w.1))
      else elim f.0 [ ok ↦ (pos len, (v, f.1)) | _ ↦ (negsuc 0, (v, f.1)) ]

  -- Phase 3: the cluster is marked as an end of chain and its sector is written.
  unfoldable pub write_data : List ℕ → List ℕ → ℕ → ℕ → ℕ → Volume × D → ℤ × (Volume × D)
  write_data fat83 buf len entry cluster (v, d) =
      let sector = take len buf ++ replicate (bytes_per_sector - len) 0 in
      let v1 = record v { fat = fat12_set_cluster v.fat cluster 0xFFF; sector_buf = sector } in
      let w = write d (cluster_to_lba cluster) sector in
      let rest = write_entry fat83 len entry cluster (v1, w.1) in
      if w.0 then rest else (negsuc 0, (v1, w.1))

  unfoldable pub fat12_write_file : CharPtr → CharPtr → ℕ → Volume × D → ℤ × (Volume × D)
  fat12_write_file (some name) (some buf) len st =
      let fat83 = name_to_fat83 name in
      let found = search_loop root_entry_count 0 fat83 none st in
      if not st.0.loaded then (negsuc 0, st) else elim found.0 [
        | none ↦ (negsuc 0, found.1)
        | some r ↦ elim (choose_cluster found.1.0.fat r) [
          | none ↦ (negsuc 0, found.1)
          | some place ↦ write_data fat83 buf (min len bytes_per_sector) place.0 place.1 found.1
        ]
      ]
  fat12_write_file none buf len st = (negsuc 0, st)
  fat12_write_file (some name) none len st = (negsuc 0, st)
