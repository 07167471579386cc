-- ===== src/Fat12.antt =====
-- env/fat12.c: the FAT12 driver. The disk is a parameter, with a read and a write of one sector that
-- may fail, as `ata_read_sectors` and `ata_write_sectors` with count 1. The operands of each `|` of the
-- source share no bit, so `|` is written as a sum.
pub mod Entry
pub mod Alloc
pub mod Name
pub mod Volume
pub mod Dirent
pub mod Search
pub mod Working
pub mod Stored
pub mod Store
pub mod Place
pub mod RoundTrip
pub mod Disk
mod Tests
mod DiskTests
use new_attempt.Base.{
  Bool, List, [], drop, false, get_or, if◌then◌else◌, leb, replicate, set, suc, take, true, zero, ℕ,
  ◌%◌, ◌&&◌, ◌*◌, ◌++◌, ◌+◌, ◌-◌, ◌/◌, ◌==◌, ◌^◌, ◌||◌, ◌∷◌,
}

abbrev pub bytes_per_sector : ℕ
bytes_per_sector = 512

abbrev pub root_entry_count : ℕ
root_entry_count = 224

abbrev pub fat_size_sectors : ℕ
fat_size_sectors = 9

abbrev pub fat1_lba : ℕ
fat1_lba = 1

abbrev pub fat2_lba : ℕ
fat2_lba = fat1_lba + fat_size_sectors

abbrev pub root_lba : ℕ
root_lba = fat2_lba + fat_size_sectors

abbrev pub data_lba : ℕ
data_lba = root_lba + (root_entry_count * 32 + bytes_per_sector - 1) / bytes_per_sector

-- `sizeof(s_fat_buf)`
abbrev pub fat_bytes : ℕ
fat_bytes = fat_size_sectors * bytes_per_sector

unfoldable pub cluster_to_lba : ℕ → ℕ
cluster_to_lba cluster = (data_lba + (cluster + 2 ^ 32 - 2) % 2 ^ 32) % 2 ^ 32

-- The offset of a cluster's entry, `cluster + cluster / 2`.
abbrev pub offset_of : ℕ → ℕ
offset_of cluster = cluster + cluster / 2

-- `entry >>= 4` for an odd cluster, `entry &= 0x0FFF` for an even one.
unfoldable pub fat12_next_cluster : List ℕ → ℕ → ℕ
fat12_next_cluster fat cluster =
    let offset = offset_of cluster in
    let entry = get_or fat offset 0 + get_or fat (offset + 1) 0 * 256 in
    if leb fat_bytes (offset + 1)
    then 0xFFF
    else if cluster % 2 == 1
    then entry / 16
    else entry % 0x1000

unfoldable pub fat12_set_cluster : List ℕ → ℕ → ℕ → List ℕ
fat12_set_cluster fat cluster value =
    let offset = offset_of cluster in
    let lo = get_or fat offset 0 in
    let hi = get_or fat (offset + 1) 0 in
    if leb fat_bytes (offset + 1)
    then fat
    else if cluster % 2 == 1
    then set (set fat offset (lo % 16 + value % 16 * 16)) (offset + 1) (value / 16 % 256)
    else set (set fat offset (value % 256)) (offset + 1) (hi / 16 * 16 + value / 256 % 16)

-- `for (c = 2; c < 2848; c++)` with the rounds left.
unfoldable pub alloc_loop : List ℕ → ℕ → ℕ → ℕ
alloc_loop fat zero c = 0
alloc_loop fat (suc n) c =
    let later = alloc_loop fat n (c + 1) in if fat12_next_cluster fat c == 0 then c else later

unfoldable pub fat12_alloc_cluster : List ℕ → ℕ
fat12_alloc_cluster fat = alloc_loop fat 2846 2

-- `if (c >= 'a' && c <= 'z') c = c - 'a' + 'A';`
abbrev pub upper : ℕ → ℕ
upper c = if leb b'a' c && leb c b'z' then c - 32 else c

unfoldable pub fat83_loop : List ℕ → ℕ → List ℕ → List ℕ
fat83_loop [] di dst = dst
fat83_loop (c ∷ src) di dst =
    let skip = fat83_loop src 8 dst in
    let put = fat83_loop src (di + 1) (set dst di (upper c)) in
    if c == 0 || leb 11 di then dst else if c == b'.' then skip else put

unfoldable pub name_to_fat83 : List ℕ → List ℕ
name_to_fat83 src = fat83_loop src 0 (replicate 11 b' ')

-- `fat12_dirent_t`, read from its 32 bytes.
pub record DirEntry : Type 0 where
  pub name : List ℕ
  pub attr : ℕ
  pub cluster : ℕ
  pub size : ℕ

-- The entry at an offset of a sector; 16- and 32-bit fields are little-endian.
unfoldable pub dirent_at : List ℕ → ℕ → DirEntry
dirent_at sector off =
    let e = drop off sector in
    record {
      name = take 11 e;
      attr = get_or e 11 0;
      cluster = get_or e 26 0 + get_or e 27 0 * 0x100;
      size =
          get_or e 28 0
          + get_or e 29 0 * 0x100
          + get_or e 30 0 * 0x10000
          + get_or e 31 0 * 0x1000000;
    }

-- Volume labels, directories and long-name parts are passed over.
abbrev pub skipped : DirEntry → Bool
skipped e = e.attr == 0x08 || e.attr == 0x10 || e.attr == 0x0F

abbrev pub same_bytes : List ℕ → List ℕ → Bool
same_bytes [] ys = true
same_bytes (x ∷ xs) [] = false
same_bytes (x ∷ xs) (y ∷ ys) = x == y && same_bytes xs ys

-- The sector and the offset of a root directory entry.
abbrev pub entry_sector : ℕ → ℕ
entry_sector entry = root_lba + entry * 32 / bytes_per_sector

abbrev pub entry_off : ℕ → ℕ
entry_off entry = entry * 32 % bytes_per_sector

-- The 32 bytes that `fat12_write_file` stores for a file.
unfoldable pub dirent_bytes : List ℕ → ℕ → ℕ → List ℕ
dirent_bytes fat83 cluster len =
    fat83
    ++ (0x20
        ∷ (replicate 14 0
            ++ (cluster % 0x100
                ∷ cluster / 0x100 % 0x100
                ∷ len % 0x100
                ∷ len / 0x100 % 0x100
                ∷ len / 0x10000 % 0x100
                ∷ len / 0x1000000 % 0x100
                ∷ [])))
