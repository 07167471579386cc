-- ===== src/Fat12/Working.antt =====
-- A disk that works, and what the loops of env/fat12.c do on it: the searches are those of
-- Fat12/Search on the entries that the disk holds.
use new_attempt.Status.{ok}
use mathlib.Core.Path.{fun_ext}
use new_attempt.Base.{
  All, ==-ne, ==-refl, Bool, Bool-cases, List, Option, ap, arith, drop, if◌then◌else◌, inl, inr,
  length, length-drop, length-take, min, none, refl, some, subst, suc, sym, take, true, zero, ℕ,
  ◌*◌, ◌++◌, ◌+◌, ◌<◌, ◌==◌, ◌^◌, ◌∙◌, ◌≡◌, ◌≢◌, ◌≤◌,
}
use new_attempt.Fat12.{
  fat1_lba, root_lba, fat2_lba, cluster_to_lba, entry_off, fat_size_sectors, entry_sector,
  fat_bytes, root_entry_count, dirent_at, DirEntry, bytes_per_sector,
}
use new_attempt.Fat12.Volume.{
  fat_sector, read_data, or_else, fat12_flush_fat, flush_loop, read_loop, search_loop, Volume,
  read_sector,
}
use new_attempt.Fat12.Search.{passed, lookup, scan}
use new_attempt.Base.Int.{pos}
use new_attempt.CString.{first}

-- The sectors after one is written.
unfoldable pub stored : (ℕ → List ℕ) → ℕ → List ℕ → ℕ → List ℕ
stored c lba bytes l = if l == lba then bytes else c l

abbrev pub Byte : ℕ → Type 0
Byte b = b < 0x100

-- The sectors hold 512 bytes. Every read and write of a sector below 2^28 succeeds: a read into a buffer of
-- 512 bytes delivers the sector and leaves all of them as they are, a write of 512 bytes changes the
-- sector and no other.
pub record IsWorking {D : Type 0} (read : D → ℕ → List ℕ → Bool × List ℕ × D)
    (write : D → ℕ → List ℕ → Bool × D) (contents : D → ℕ → List ℕ) : Type 0 where
  pub sized : (d : D) (lba : ℕ) → length (contents d lba) ≡ bytes_per_sector
  pub bytes : (d : D) (lba : ℕ) → All Byte (contents d lba)
  pub read_ok : (d : D) (lba : ℕ) (buf : List ℕ) → lba < 2 ^ 28 → (read d lba buf).0 ≡ true
  pub read_bytes :
      (d : D) (lba : ℕ) (buf : List ℕ)
      → lba < 2 ^ 28
      → length buf ≡ bytes_per_sector
      → (read d lba buf).1 ≡ contents d lba
  pub read_same :
      (d : D) (lba : ℕ) (buf : List ℕ) → lba < 2 ^ 28 → contents (read d lba buf).2 ≡ contents d
  pub write_ok :
      (d : D) (lba : ℕ) (bytes : List ℕ)
      → lba < 2 ^ 28
      → length bytes ≡ bytes_per_sector
      → (write d lba bytes).0 ≡ true
  pub write_at :
      (d : D) (lba : ℕ) (bytes : List ℕ)
      → lba < 2 ^ 28
      → length bytes ≡ bytes_per_sector
      → All Byte bytes
      → contents (write d lba bytes).1 lba ≡ bytes
  pub write_other :
      (d : D) (lba : ℕ) (bytes : List ℕ) (l : ℕ)
      → lba < 2 ^ 28
      → length bytes ≡ bytes_per_sector
      → l ≢ lba
      → contents (write d lba bytes).1 l ≡ contents d l

pub stored_ne : (c : ℕ → List ℕ) (lba l : ℕ) (bytes : List ℕ) → l ≢ lba → stored c lba bytes l ≡ c l
unfolding stored
stored_ne c lba l bytes h = rw (==-ne l lba h) refl

pub stored_at : (c : ℕ → List ℕ) (lba : ℕ) (bytes : List ℕ) → stored c lba bytes lba ≡ bytes
unfolding stored
stored_at c lba bytes = rw (==-refl lba) refl

none_entry : {e : DirEntry} → ◌≡◌ {A = Option DirEntry} none (some e) → ⊥
none_entry h = cc

entry_inj : {d e : DirEntry} → some d ≡ some e → d ≡ e
entry_inj h = cc

-- Entry `i` of the root directory.
unfoldable pub dir_of : (ℕ → List ℕ) → ℕ → DirEntry
dir_of c i = dirent_at (c (entry_sector i)) (entry_off i)

module _ {D : Type 0} {read : D → ℕ → List ℕ → Bool × List ℕ × D}
    {write : D → ℕ → List ℕ → Bool × D} {contents : D → ℕ → List ℕ}
    (works : IsWorking read write contents) where
  pub write-stored :
      (d : D) (lba : ℕ) (bytes : List ℕ)
      → lba < 2 ^ 28
      → length bytes ≡ bytes_per_sector
      → All Byte bytes
      → contents (write d lba bytes).1 ≡ stored (contents d) lba bytes
  write-stored d lba bytes low size small = fun_ext (λ l. elim (Bool-cases (l == lba)) [
    | inl here ↦
        let eq : l ≡ lba = ground arith in
        ap (contents (write d lba bytes).1) eq
        ∙ works.write_at d lba bytes low size small
        ∙ sym (ap (stored (contents d) lba bytes) eq ∙ stored_at (contents d) lba bytes)
    | inr other ↦
        works.write_other d lba bytes l low size (ground arith)
        ∙ sym (stored_ne (contents d) lba l bytes (ground arith))
  ])

  -- The buffer is full after a read too.
  pub read_sector_lem :
      (st : Volume × D) (lba : ℕ)
      → length st.0.sector_buf ≡ bytes_per_sector
      → lba < 2 ^ 28
      → ((read_sector read write st lba).0 ≡ true)
        × ((read_sector read write st lba).1.0 ≡ record st.0 { sector_buf = contents st.1 lba })
        × (contents (read_sector read write st lba).1.1 ≡ contents st.1)
        × (length (read_sector read write st lba).1.0.sector_buf ≡ bytes_per_sector)
  unfolding read_sector
  read_sector_lem (v, d) lba size h =
      let same = works.read_bytes d lba v.sector_buf h size in
      (
        works.read_ok d lba v.sector_buf h,
        ap (λ (b : List ℕ). record v { sector_buf = b }) same,
        works.read_same d lba v.sector_buf h,
        ap length same ∙ works.sized d lba,
      )

  -- The entry that a round of a loop reads.
  read_entry :
      (st : Volume × D) (i : ℕ)
      → length st.0.sector_buf ≡ bytes_per_sector
      → i < root_entry_count
      → dirent_at (read_sector read write st (entry_sector i)).1.0.sector_buf (entry_off i)
        ≡ dir_of (contents st.1) i
  unfolding dir_of
  read_entry st i size h =
      ap (λ (v : Volume). dirent_at v.sector_buf (entry_off i))
        (read_sector_lem st (entry_sector i) size (omega arith)).1

  -- What the directory search of `fat12_write_file` finds, and what it leaves.
  pub search_loop-scan :
      (fat83 : List ℕ) (n i : ℕ) (free : Option ℕ) (st : Volume × D)
      → length st.0.sector_buf ≡ bytes_per_sector
      → i + n ≤ root_entry_count
      → ((search_loop read write n i fat83 free st).0
          ≡ some (scan (dir_of (contents st.1)) fat83 n i free))
        × ((search_loop read write n i fat83 free st).1.0.fat ≡ st.0.fat)
        × ((search_loop read write n i fat83 free st).1.0.loaded ≡ st.0.loaded)
        × (contents (search_loop read write n i fat83 free st).1.1 ≡ contents st.1)
        × (length (search_loop read write n i fat83 free st).1.0.sector_buf ≡ bytes_per_sector)
  unfolding search_loop scan passed
  search_loop-scan fat83 zero i free st size h = (refl, refl, refl, refl, size)
  search_loop-scan fat83 (suc n) i free st size h =
      let (read_fine, volume, same, full) =
        read_sector_lem st (entry_sector i) size (omega arith) in
      let de = read_entry st i size (omega arith) in
      let st1 = (read_sector read write st (entry_sector i)).1 in
      let fat_same = ap (λ (v : Volume). v.fat) volume in
      let loaded_same = ap (λ (v : Volume). v.loaded) volume in
      elim (Bool-cases (first (dir_of (contents st.1) i).name == 0)) [
        | inl end ↦ rw (read_fine, de, end) (refl, fat_same, loaded_same, same, full)
        | inr used ↦ elim (Bool-cases (passed fat83 (dir_of (contents st.1) i))) [
          | inl pass ↦
              let free' =
                if first (dir_of (contents st.1) i).name == 0xE5 then or_else free i else free in
              let (found, fat_kept, loaded_kept, kept, full_kept) =
                search_loop-scan fat83 n (i + 1) free' st1 full (omega arith) in
              rw (read_fine, de, used, pass)
                (
                  found ∙ ap (λ k. some (scan (dir_of k) fat83 n (i + 1) free')) same,
                  fat_kept ∙ fat_same,
                  loaded_kept ∙ loaded_same,
                  kept ∙ same,
                  full_kept,
                )
          | inr hit ↦ rw (read_fine, de, used, hit) (refl, fat_same, loaded_same, same, full)
        ]
      ]

  read_data_lem :
      (de : DirEntry) (buf : List ℕ) (len : ℕ) (st : Volume × D)
      → length st.0.sector_buf ≡ bytes_per_sector
      → cluster_to_lba de.cluster < 2 ^ 28
      → ((read_data read write de buf len st).0 ≡ pos (min (min de.size len) bytes_per_sector))
        × ((read_data read write de buf len st).1
            ≡ take
                (min (min de.size len) bytes_per_sector)
                (contents st.1 (cluster_to_lba de.cluster))
              ++ drop (min (min de.size len) bytes_per_sector) buf)
  unfolding read_data
  read_data_lem de buf len st size low =
      let (read_fine, volume, same, _) = read_sector_lem st (cluster_to_lba de.cluster) size low in
      rw read_fine (
        refl,
        ap
            (λ (v : Volume).
              take (min (min de.size len) bytes_per_sector) v.sector_buf
              ++ drop (min (min de.size len) bytes_per_sector) buf)
            volume,
      )

  -- What `fat12_read_file` returns where its search finds an entry.
  pub read_loop-lookup :
      (fat83 buf : List ℕ) (len n i : ℕ) (st : Volume × D) (de : DirEntry)
      → length st.0.sector_buf ≡ bytes_per_sector
      → i + n ≤ root_entry_count
      → lookup (dir_of (contents st.1)) fat83 n i ≡ some de
      → cluster_to_lba de.cluster < 2 ^ 28
      → ((read_loop read write n i fat83 buf len st).0
          ≡ pos (min (min de.size len) bytes_per_sector))
        × ((read_loop read write n i fat83 buf len st).1
            ≡ take
                (min (min de.size len) bytes_per_sector)
                (contents st.1 (cluster_to_lba de.cluster))
              ++ drop (min (min de.size len) bytes_per_sector) buf)
  unfolding read_loop lookup passed
  read_loop-lookup fat83 buf len zero i st de size h e low = cc
  read_loop-lookup fat83 buf len (suc n) i st de size h e low =
      let (read_fine, volume, same, full) =
        read_sector_lem st (entry_sector i) size (omega arith) in
      let entry = read_entry st i size (omega arith) in
      let st1 = (read_sector read write st (entry_sector i)).1 in
      elim (Bool-cases (first (dir_of (contents st.1) i).name == 0)) [
        | inl end ↦ absurd (none_entry (rw end at e))
        | inr used ↦ elim (Bool-cases (passed fat83 (dir_of (contents st.1) i))) [
          | inl pass ↦
              let (count_eq, bytes_eq) =
                read_loop-lookup fat83 buf len n (i + 1) st1 de full (omega arith)
                  (subst (λ c. lookup (dir_of c) fat83 n (i + 1) ≡ some de) (sym same)
                    (rw (used, pass) at e))
                  low in
              rw (read_fine, entry, used, pass)
                (
                  count_eq,
                  bytes_eq
                      ∙ ap
                          (λ (c : ℕ → List ℕ).
                            take (min (min de.size len) bytes_per_sector)
                              (c (cluster_to_lba de.cluster))
                            ++ drop (min (min de.size len) bytes_per_sector) buf)
                          same,
                )
          | inr hit ↦
              let eq : dir_of (contents st.1) i ≡ de = entry_inj (rw (used, hit) at e) in
              let (count_eq, bytes_eq) = read_data_lem de buf len st1 full low in
              rw (read_fine, entry, used, hit, eq)
                (
                  count_eq,
                  bytes_eq
                      ∙ ap
                          (λ (c : ℕ → List ℕ).
                            take (min (min de.size len) bytes_per_sector)
                              (c (cluster_to_lba de.cluster))
                            ++ drop (min (min de.size len) bytes_per_sector) buf)
                          same,
                )
        ]
      ]

  -- The flush of one FAT succeeds and leaves the sectors behind it.
  flush_loop_lem :
      (n base s : ℕ) (fat : List ℕ) (d : D)
      → length fat ≡ fat_bytes
      → s + n ≤ fat_size_sectors
      → base ≤ fat2_lba
      → ((flush_loop read write n base s fat d).0 ≡ ok)
        × ((l : ℕ)
            → base + s + n ≤ l
            → contents (flush_loop read write n base s fat d).1 l ≡ contents d l)
  unfolding flush_loop
  flush_loop_lem zero base s fat d size hs hb = (refl, λ l h. refl)
  flush_loop_lem (suc n) base s fat d size hs hb =
      let sector = fat_sector fat s in
      let full : length sector ≡ bytes_per_sector = omega (
        arith,
        length-take bytes_per_sector (drop (s * bytes_per_sector) fat),
        length-drop (s * bytes_per_sector) fat,
      ) in
      let fine = works.write_ok d (base + s) sector (omega arith) full in
      let (rest_ok, rest) =
        flush_loop_lem n base (s + 1) fat (write d (base + s) sector).1 size (omega arith) hb in
      rw fine (
        rest_ok,
        λ l h.
            rest l (omega arith)
            ∙ works.write_other d (base + s) sector l (omega arith) full (omega arith),
      )

  pub fat12_flush_fat_lem :
      (fat : List ℕ) (d : D)
      → length fat ≡ fat_bytes
      → ((fat12_flush_fat read write fat d).0 ≡ ok)
        × ((l : ℕ) → root_lba ≤ l → contents (fat12_flush_fat read write fat d).1 l ≡ contents d l)
  unfolding fat12_flush_fat
  fat12_flush_fat_lem fat d size =
      let (first_ok, first_rest) =
        flush_loop_lem fat_size_sectors fat1_lba 0 fat d size (omega arith) (omega arith) in
      let d1 = (flush_loop read write fat_size_sectors fat1_lba 0 fat d).1 in
      let (second_ok, second_rest) =
        flush_loop_lem fat_size_sectors fat2_lba 0 fat d1 size (omega arith) (omega arith) in
      rw (first_ok, fat12_flush_fat)
        (second_ok, λ l h. second_rest l (omega arith) ∙ first_rest l (omega arith))
