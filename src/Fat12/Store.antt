-- ===== src/Fat12/Store.antt =====
-- What `fat12_write_file` of env/fat12.c leaves on a disk that works.
use new_attempt.Fat12.Stored.{All-put_at, All-dirent_bytes, All-sector}
use new_attempt.Base.{
  All, subst, Bool, Bool-cases, List, ap, arith, inl, inr, length, length-append, length-put_at,
  length-replicate, length-take, put_at, refl, replicate, sym, take, ℕ, ◌++◌, ◌+◌, ◌-◌, ◌<◌, ◌==◌,
  ◌^◌, ◌∙◌, ◌≡◌, ◌≢◌, ◌≤◌,
}
use new_attempt.Fat12.{
  fat12_set_cluster, root_lba, fat_bytes, root_entry_count, dirent_at, dirent_bytes, entry_off,
  entry_sector, cluster_to_lba, bytes_per_sector,
}
use new_attempt.Fat12.Working.{
  write-stored, Byte, fat12_flush_fat_lem, read_sector_lem, stored_ne, stored_at, dir_of, IsWorking,
  stored,
}
use new_attempt.Fat12.Volume.{read_sector, Volume, write_data, write_entry}
use new_attempt.Fat12.Dirent.{dirent_at-put_at_ne, dirent_at-put_at, file_entry}
use new_attempt.Base.Int.{pos}
use new_attempt.Fat12.Entry.{length-fat12_set_cluster}

abbrev pub sector_of : List ℕ → ℕ → List ℕ
sector_of buf len = take len buf ++ replicate (bytes_per_sector - len) 0

pub length-sector_of :
    (buf : List ℕ) (len : ℕ)
    → len ≤ length buf
    → len ≤ bytes_per_sector
    → length (sector_of buf len) ≡ bytes_per_sector
length-sector_of buf len h k = omega (
  arith,
  length-append (take len buf) (replicate (bytes_per_sector - len) 0),
  length-take len buf,
  length-replicate {A = ℕ} (bytes_per_sector - len) 0,
)

-- The sectors with entry `e` of the root directory replaced.
abbrev pub with_entry : (ℕ → List ℕ) → ℕ → List ℕ → ℕ → List ℕ
with_entry c e bytes = stored c (entry_sector e) (put_at (c (entry_sector e)) (entry_off e) bytes)

pub lba_of_cluster : (c : ℕ) → 2 ≤ c → c < 2849 → cluster_to_lba c ≡ c + 31
unfolding cluster_to_lba
lba_of_cluster c lo hi = omega arith

module _ (c : ℕ → List ℕ) (sized : (l : ℕ) → length (c l) ≡ bytes_per_sector) (fat83 : List ℕ)
    (e cluster len : ℕ) (name_size : length fat83 ≡ 11) where
  -- The entry written is read back.
  pub dir_of-with_entry :
      cluster < 2 ^ 16
      → len < 2 ^ 32
      → dir_of (with_entry c e (dirent_bytes fat83 cluster len)) e ≡ file_entry fat83 cluster len
  unfolding dir_of
  dir_of-with_entry hc hl =
      ap (λ s. dirent_at s (entry_off e)) (stored_at c (entry_sector e) _)
      ∙ dirent_at-put_at (c (entry_sector e)) fat83 (entry_off e) cluster len name_size
          (omega (arith, sized (entry_sector e))) hc hl

  -- Every other entry stays as it was.
  pub dir_of-with_entry_ne :
      (i : ℕ) → i ≢ e → dir_of (with_entry c e (dirent_bytes fat83 cluster len)) i ≡ dir_of c i
  unfolding dir_of
  dir_of-with_entry_ne i ne = elim (Bool-cases (entry_sector i == entry_sector e)) [
    | inl same ↦
        let eq : entry_sector i ≡ entry_sector e = ground arith in
        ap (λ s. dirent_at (with_entry c e (dirent_bytes fat83 cluster len) s) (entry_off i)) eq
        ∙ ap (λ s. dirent_at s (entry_off i)) (stored_at c (entry_sector e) _)
        ∙ dirent_at-put_at_ne (c (entry_sector e)) fat83 (entry_off e) cluster len name_size
            (entry_off i) (omega (arith, eq))
        ∙ ap (λ s. dirent_at (c s) (entry_off i)) (sym eq)
    | inr other ↦
        ap (λ s. dirent_at s (entry_off i))
          (stored_ne c (entry_sector e) (entry_sector i) _ (ground arith))
  ]

module _ {D : Type 0} {read : D → ℕ → List ℕ → Bool × List ℕ × D}
    {write : D → ℕ → List ℕ → Bool × D} {contents : D → ℕ → List ℕ}
    (works : IsWorking read write contents) where
  write_entry_lem :
      (fat83 : List ℕ) (len e cluster : ℕ) (st : Volume × D)
      → length st.0.sector_buf ≡ bytes_per_sector
      → All Byte fat83
      → e < root_entry_count
      → length st.0.fat ≡ fat_bytes
      → ((write_entry read write fat83 len e cluster st).0 ≡ pos len)
        × ((write_entry read write fat83 len e cluster st).1.0.loaded ≡ st.0.loaded)
        × (length (write_entry read write fat83 len e cluster st).1.0.sector_buf ≡ bytes_per_sector)
        × ((l : ℕ)
            → root_lba ≤ l
            → contents (write_entry read write fat83 len e cluster st).1.1 l
              ≡ with_entry (contents st.1) e (dirent_bytes fat83 cluster len) l)
  unfolding write_entry
  write_entry_lem fat83 len e cluster st full_buf small room size =
      let (read_fine, volume, same, _) =
        read_sector_lem works st (entry_sector e) full_buf (omega arith) in
      let st1 = (read_sector read write st (entry_sector e)).1 in
      let bytes = dirent_bytes fat83 cluster len in
      let buf_eq = ap (λ (v : Volume). v.sector_buf) volume in
      let fat_eq = ap (λ (v : Volume). v.fat) volume in
      let sector = put_at st1.0.sector_buf (entry_off e) bytes in
      let full : length sector ≡ bytes_per_sector =
        length-put_at st1.0.sector_buf (entry_off e) bytes
        ∙ ap length buf_eq
        ∙ works.sized st.1 (entry_sector e) in
      let all_bytes : All Byte sector =
        All-put_at st1.0.sector_buf (entry_off e) bytes
          (subst (All Byte) (sym buf_eq) (works.bytes st.1 (entry_sector e)))
          (All-dirent_bytes fat83 cluster len small) in
      let fine = works.write_ok st1.1 (entry_sector e) sector (omega arith) full in
      let (flushed, rest) =
        fat12_flush_fat_lem works st1.0.fat (write st1.1 (entry_sector e) sector).1
          (ap length fat_eq ∙ size) in
      rw (read_fine, fine, flushed)
        (
          refl,
          ap (λ (v : Volume). v.loaded) volume,
          full,
          λ l h.
              rest l h
              ∙ ap (λ (c : ℕ → List ℕ). c l)
                  (write-stored works st1.1 (entry_sector e) sector (omega arith) full all_bytes)
              ∙ ap (λ (c : ℕ → List ℕ). stored c (entry_sector e) sector l) same
              ∙ ap
                  (λ (b : List ℕ).
                    stored (contents st.1) (entry_sector e) (put_at b (entry_off e) bytes) l)
                  buf_eq,
        )

  -- Phases 3 to 5: the data sector and the entry are as wanted, and so are all other sectors behind
  -- the two FATs.
  pub write_data_lem :
      (fat83 buf : List ℕ) (len e cluster : ℕ) (st : Volume × D)
      → All Byte fat83
      → All Byte buf
      → e < root_entry_count
      → length st.0.fat ≡ fat_bytes
      → len ≤ length buf
      → len ≤ bytes_per_sector
      → cluster_to_lba cluster < 2 ^ 28
      → ((write_data read write fat83 buf len e cluster st).0 ≡ pos len)
        × ((write_data read write fat83 buf len e cluster st).1.0.loaded ≡ st.0.loaded)
        × (length (write_data read write fat83 buf len e cluster st).1.0.sector_buf
            ≡ bytes_per_sector)
        × ((l : ℕ)
            → root_lba ≤ l
            → contents (write_data read write fat83 buf len e cluster st).1.1 l
              ≡ with_entry
                  (stored (contents st.1) (cluster_to_lba cluster) (sector_of buf len))
                  e
                  (dirent_bytes fat83 cluster len)
                  l)
  unfolding write_data
  write_data_lem fat83 buf len e cluster (v, d) small_name small room size h k low =
      let full = length-sector_of buf len h k in
      let fine = works.write_ok d (cluster_to_lba cluster) (sector_of buf len) low full in
      let d1 = (write d (cluster_to_lba cluster) (sector_of buf len)).1 in
      let v1 : Volume = record v {
        fat = fat12_set_cluster v.fat cluster 0xFFF;
        sector_buf = sector_of buf len;
      } in
      let (done, loaded_kept, full_kept, rest) =
        write_entry_lem fat83 len e cluster (v1, d1) full small_name room
          (length-fat12_set_cluster v.fat cluster 0xFFF ∙ size) in
      rw fine (
        done,
        loaded_kept,
        full_kept,
        λ l below.
            rest l below
            ∙ ap (λ (c : ℕ → List ℕ). with_entry c e (dirent_bytes fat83 cluster len) l)
                (write-stored works d (cluster_to_lba cluster) (sector_of buf len) low full
                  (All-sector buf len small)),
      )
