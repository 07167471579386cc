-- ===== src/Fat12/RoundTrip.antt =====
-- A file that `fat12_write_file` of env/fat12.c writes on a disk that works is read back by
-- `fat12_read_file`.
use new_attempt.Fat12.Stored.{All-name_to_fat83}
use new_attempt.Base.{
  All, ==-ne, Bool, Bool-cases, List, Option-cases, ap, arith, drop, if◌then◌else◌, inl, inr,
  length, min, none, not, refl, some, subst, sym, take, true, ℕ, ◌++◌, ◌+◌, ◌-◌, ◌<◌, ◌==◌, ◌∙◌,
  ◌≡◌, ◌≢◌, ◌≤◌, ◌⊎◌,
}
use new_attempt.Fat12.{
  entry_sector, dirent_bytes, entry_off, root_lba, dirent_at, cluster_to_lba, bytes_per_sector,
  name_to_fat83, fat_bytes, root_entry_count, DirEntry,
}
use new_attempt.Fat12.Volume.{
  read_loop, fat12_read_file, write_data, fat12_write_file, search_loop, Volume, Search,
  choose_cluster,
}
use new_attempt.Fat12.Search.{lookup_at, lookup, Passes, scan, passed}
use new_attempt.CString.{CharPtr, first}
use new_attempt.Fat12.Working.{
  Byte, read_loop-lookup, stored_at, stored_ne, stored, search_loop-scan, dir_of, IsWorking,
}
use new_attempt.Base.Int.{pos, negsuc, ℤ}
use new_attempt.Fat12.Store.{
  length-sector_of, write_data_lem, dir_of-with_entry, lba_of_cluster, sector_of,
  dir_of-with_entry_ne, with_entry,
}
use new_attempt.Fat12.Dirent.{file_entry}
use new_attempt.Fat12.Place.{
  place_for, place_range, ClustersValid, file_entry_found, guarded, take-sector_of,
}
use new_attempt.Fat12.Name.{length-name_to_fat83}

module _ {D : Type 0} {read : D → ℕ → List ℕ → Bool × List ℕ × D}
    {write : D → ℕ → List ℕ → Bool × D} {contents : D → ℕ → List ℕ}
    (works : IsWorking read write contents) (name buf : List ℕ) (len : ℕ) (st : Volume × D)
    (loaded : st.0.loaded ≡ true) (fat_size : length st.0.fat ≡ fat_bytes)
    (buf_size : length st.0.sector_buf ≡ bytes_per_sector) (name_bytes : All Byte name)
    (bytes : All Byte buf) (room : len ≤ length buf)
    (valid : ClustersValid (dir_of (contents st.1)) (name_to_fat83 name)) where
  abbrev fat83 : List ℕ
  fat83 = name_to_fat83 name

  -- What phase 1 finds.
  search : Search
  search = scan (dir_of (contents st.1)) fat83 root_entry_count 0 none

  -- The entry and the cluster that are written are in range.
  place_valid :
      (e c : ℕ)
      → choose_cluster st.0.fat search ≡ some (e, c)
      → (e < root_entry_count) × (2 ≤ c) × (c < 2849) × Passes (dir_of (contents st.1)) fat83 0 e
  unfolding search
  place_valid e c h = place_range (dir_of (contents st.1)) st.0.fat fat83 e c valid h

  -- The state after the directory search, and after the whole write.
  searched : Volume × D
  searched = (search_loop read write root_entry_count 0 fat83 none st).1

  abbrev written : ℤ × (Volume × D)
  written = fat12_write_file read write (some name) (some buf) len st

  abbrev kept : ℕ
  kept = min len bytes_per_sector

  search_facts :
      ((search_loop read write root_entry_count 0 fat83 none st).0 ≡ some search)
      × (searched.0.fat ≡ st.0.fat)
      × (searched.0.loaded ≡ st.0.loaded)
      × (contents searched.1 ≡ contents st.1)
      × (length searched.0.sector_buf ≡ bytes_per_sector)
  unfolding searched search
  search_facts = search_loop-scan works fat83 root_entry_count 0 none st buf_size (omega arith)

  written-none : choose_cluster st.0.fat search ≡ none → written ≡ (negsuc 0, searched)
  unfolding fat12_write_file searched
  written-none e =
      let (found, fat_same, loaded_same, same, full) = search_facts in
      let no_place : choose_cluster searched.0.fat search ≡ none =
        ap (λ f. choose_cluster f search) fat_same ∙ e in
      rw (found, no_place)
        (ap
          (λ b.
            let r : ℤ × (Volume × D) = if not b then (negsuc 0, st) else (negsuc 0, searched) in r)
          loaded)

  written-some :
      (p : ℕ × ℕ)
      → choose_cluster st.0.fat search ≡ some p
      → written ≡ write_data read write fat83 buf kept p.0 p.1 searched
  unfolding fat12_write_file searched
  written-some p e =
      let (found, fat_same, loaded_same, same, full) = search_facts in
      let place : choose_cluster searched.0.fat search ≡ some p =
        ap (λ f. choose_cluster f search) fat_same ∙ e in
      rw (found, place)
        (ap
          (λ b.
            let r : ℤ × (Volume × D) =
              if not b
              then (negsuc 0, st)
              else write_data read write fat83 buf kept p.0 p.1 searched in
            r)
          loaded)

  -- The sectors behind the FATs after a write to entry `e` and cluster `c`.
  abbrev sectors_after : ℕ → ℕ → ℕ → List ℕ
  sectors_after e c =
      with_entry (stored (contents st.1) (cluster_to_lba c) (sector_of buf kept)) e
        (dirent_bytes (name_to_fat83 name) c kept)

  module _ (e c : ℕ) (place : choose_cluster st.0.fat search ≡ some (e, c)) where
    after : Volume × D
    after = (write_data read write fat83 buf kept e c searched).1

    ranges : (e < root_entry_count) × (cluster_to_lba c ≡ c + 31) × (2 ≤ c) × (c < 2849)
    ranges =
        let (lt, lo, hi, before) = place_valid e c place in (lt, lba_of_cluster c lo hi, lo, hi)

    after_facts :
        ((write_data read write fat83 buf kept e c searched).0 ≡ pos kept)
        × (after.0.loaded ≡ true)
        × (length after.0.sector_buf ≡ bytes_per_sector)
        × ((l : ℕ) → root_lba ≤ l → contents after.1 l ≡ sectors_after e c l)
    unfolding after
    after_facts =
        let (found, fat_same, loaded_same, same, full) = search_facts in
        let (lt, lba, lo, hi) = ranges in
        let (done, loaded_kept, full_after, sectors) =
          write_data_lem works (name_to_fat83 name) buf kept e c searched
            (All-name_to_fat83 name name_bytes) bytes lt (ap length fat_same ∙ fat_size)
            (omega arith) (omega arith) (omega (arith, lba)) in
        (
          done,
          loaded_kept ∙ loaded_same ∙ loaded,
          full_after,
          λ l h.
              sectors l h
              ∙ ap
                  (λ (d : ℕ → List ℕ).
                    with_entry (stored d (cluster_to_lba c) (sector_of buf kept)) e
                      (dirent_bytes (name_to_fat83 name) c kept) l)
                  same,
        )

    stored_sized :
        (l : ℕ)
        → length (stored (contents st.1) (cluster_to_lba c) (sector_of buf kept) l)
          ≡ bytes_per_sector
    unfolding stored
    stored_sized l = elim (Bool-cases (l == cluster_to_lba c)) [
      | inl same ↦ rw same (length-sector_of buf kept (omega arith) (omega arith))
      | inr other ↦ rw other (works.sized st.1 l)
    ]

    -- The directory afterwards.
    dir_after :
        (i : ℕ) → i < root_entry_count → dir_of (contents after.1) i ≡ dir_of (sectors_after e c) i
    unfolding dir_of
    dir_after i h =
        ap (λ s. dirent_at s (entry_off i)) (after_facts.3 (entry_sector i) (omega arith))

    dir_after_same : dir_of (contents after.1) e ≡ file_entry (name_to_fat83 name) c kept
    dir_after_same =
        let (lt, lba, lo, hi) = ranges in
        dir_after e lt
        ∙ dir_of-with_entry _ stored_sized (name_to_fat83 name) e c kept (length-name_to_fat83 name)
            (omega arith) (omega arith)

    dir_after_other :
        (i : ℕ)
        → i < root_entry_count
        → i ≢ e
        → dir_of (contents after.1) i ≡ dir_of (contents st.1) i
    unfolding dir_of
    dir_after_other i h ne =
        let (lt, lba, lo, hi) = ranges in
        dir_after i h
        ∙ dir_of-with_entry_ne _ stored_sized (name_to_fat83 name) e c kept
            (length-name_to_fat83 name) i ne
        ∙ ap (λ s. dirent_at s (entry_off i))
            (stored_ne (contents st.1) (cluster_to_lba c) (entry_sector i) _ (omega (arith, lba)))

    data_after : contents after.1 (cluster_to_lba c) ≡ sector_of buf kept
    data_after =
        let (lt, lba, lo, hi) = ranges in
        after_facts.3 (cluster_to_lba c) (omega (arith, lba))
        ∙ stored_ne _ (entry_sector e) (cluster_to_lba c) _ (omega (arith, lba))
        ∙ stored_at (contents st.1) (cluster_to_lba c) (sector_of buf kept)

    -- The search for the name now ends at the entry written.
    lookup_after :
        first (name_to_fat83 name) ≢ 0
        → first (name_to_fat83 name) ≢ 0xE5
        → lookup (dir_of (contents after.1)) (name_to_fat83 name) root_entry_count 0
          ≡ some (file_entry (name_to_fat83 name) c kept)
    unfolding Passes
    lookup_after used live =
        let (lt, lo, hi, before) = place_valid e c place in
        let passes : Passes (dir_of (contents after.1)) fat83 0 e = λ j from to.
          subst (λ (d : DirEntry). (first d.name ≢ 0) × (passed fat83 d ≡ true))
            (sym (dir_after_other j (omega arith) (omega arith))) (before j from to) in
        lookup_at (dir_of (contents after.1)) fat83 root_entry_count 0 e (omega arith) (omega arith)
          passes (λ h. used (ap (λ (d : DirEntry). first d.name) (sym dir_after_same) ∙ h))
          (ap (passed fat83) dir_after_same ∙ file_entry_found fat83 c kept live)
        ∙ ap some dir_after_same

    reads_back :
        (out : List ℕ) (m : ℕ)
        → m ≢ 0
        → first (name_to_fat83 name) ≢ 0
        → first (name_to_fat83 name) ≢ 0xE5
        → ((fat12_read_file read write (some name) (some out) m after).0 ≡ pos (min kept m))
          × ((fat12_read_file read write (some name) (some out) m after).1
              ≡ some (take (min kept m) buf ++ drop (min kept m) out))
    unfolding fat12_read_file
    reads_back out m some_room used live =
        let (done, still_loaded, full, sectors) = after_facts in
        let (lt, lba, lo, hi) = ranges in
        let (count_eq, bytes_eq) =
          read_loop-lookup works fat83 out m root_entry_count 0 after (file_entry fat83 c kept) full
            (omega arith) (lookup_after used live) (omega (arith, lba)) in
        let copy : min (min kept m) bytes_per_sector ≡ min kept m = omega arith in
        let r = read_loop read write root_entry_count 0 fat83 out m after in
        let runs : fat12_read_file read write (some name) (some out) m after
            ≡ (r.0, some r.1, r.2) =
          guarded (after.0.loaded) (m == 0) (negsuc 0, some out, after) (r.0, some r.1, r.2)
            still_loaded (==-ne m 0 some_room) in
        (
          ap (λ (x : ℤ × CharPtr × (Volume × D)). x.0) runs ∙ count_eq ∙ ap pos copy,
          ap (λ (x : ℤ × CharPtr × (Volume × D)). x.1) runs
              ∙ ap some (
                  bytes_eq
                  ∙ ap (λ n. take n (contents after.1 (cluster_to_lba c)) ++ drop n out) copy
                  ∙ ap (λ b. take (min kept m) b ++ drop (min kept m) out) data_after
                  ∙ ap (λ b. b ++ drop (min kept m) out)
                      (take-sector_of (min kept m) kept buf (bytes_per_sector - kept) (omega arith)
                        (omega arith))),
        )

  -- On a disk that works, with the driver's buffers of their sizes, where the directory's files start at
  -- data clusters, a write of `len` bytes under a name that starts with neither 0 nor 0xE5 either has no place for a new file, returns -1 and leaves
  -- every sector as it was, or returns the number of bytes, 512 at most, and a read under the same name then
  -- returns the first of these bytes that the reader has room for.
  pub fat12_read_file-fat12_write_file :
      (out : List ℕ) (m : ℕ)
      → m ≢ 0
      → first (name_to_fat83 name) ≢ 0
      → first (name_to_fat83 name) ≢ 0xE5
      → ((place_for (contents st.1) st.0.fat (name_to_fat83 name) ≡ none)
          × (written.0 ≡ negsuc 0)
          × (contents written.1.1 ≡ contents st.1))
        ⊎ ((written.0 ≡ pos kept)
            × ((fat12_read_file read write (some name) (some out) m written.1).0 ≡ pos (min kept m))
            × ((fat12_read_file read write (some name) (some out) m written.1).1
                ≡ some (take (min kept m) buf ++ drop (min kept m) out)))
  unfolding after search
  fat12_read_file-fat12_write_file out m some_room used live =
      elim (Option-cases (choose_cluster st.0.fat search)) [
        | inl none_left ↦ rw (written-none none_left) (inl (none_left, refl, search_facts.3))
        | inr ((e, c), place) ↦
            subst
              (λ (w : ℤ × (Volume × D)).
                ((place_for (contents st.1) st.0.fat (name_to_fat83 name) ≡ none)
                  × (w.0 ≡ negsuc 0)
                  × (contents w.1.1 ≡ contents st.1))
                ⊎ ((w.0 ≡ pos kept)
                    × ((fat12_read_file read write (some name) (some out) m w.1).0
                        ≡ pos (min kept m))
                    × ((fat12_read_file read write (some name) (some out) m w.1).1
                        ≡ some (take (min kept m) buf ++ drop (min kept m) out))))
              (sym (written-some (e, c) place))
              (let (count_eq, bytes_eq) = reads_back e c place out m some_room used live in
                inr ((after_facts e c place).0, count_eq, bytes_eq))
      ]
