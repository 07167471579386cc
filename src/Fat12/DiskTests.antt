-- ===== src/Fat12/DiskTests.antt =====
-- A disk controller in memory under adapters/ata.c, and the theorems at it.
use new_attempt.Ata.Controller.{Controller, behaves, view, inb, outb, inw, outw, new_disk}
use new_attempt.Ata.Words.{bytes_of}
use new_attempt.Fat12.Disk.{read_disk, write_disk, sector_bytes, drive-IsWorking}
use new_attempt.Base.{
  none, Bool, List, [], arith, drop, refl, replicate, some, suc, take, true, zero, ℕ, ◌++◌, ◌∷◌,
  ◌≡◌, ◌⊎◌,
}
use new_attempt.Fat12.{fat83_loop, entry_off, name_to_fat83, dirent_at}
use new_attempt.Fat12.Working.{dir_of, IsWorking}
use new_attempt.Fat12.Volume.{fat12_read_file, fat12_write_file, Volume}
use new_attempt.CString.{first, codes}
use new_attempt.Fat12.Place.{place_for, ClustersValid}
use new_attempt.Fat12.RoundTrip.{fat12_read_file-fat12_write_file}
use new_attempt.Base.Int.{pos, negsuc, ℤ}
use new_attempt.Env.{EnvTable}

abbrev contents : Controller → ℕ → List ℕ
contents = sector_bytes view

abbrev read : Controller → ℕ → List ℕ → Bool × List ℕ × Controller
read = read_disk inb outb inw outw

abbrev write : Controller → ℕ → List ℕ → Bool × Controller
write = write_disk inb outb inw outw

works : IsWorking read write contents
works = drive-IsWorking behaves

-- A formatted disk, mounted.
abbrev mounted : Volume × Controller
mounted = (
  record {
    sector_buf = replicate 512 0;
    fat = 0xF0 ∷ 0xFF ∷ 0xFF ∷ replicate 4605 0;
    loaded = true;
  },
  new_disk,
)

abbrev note : List ℕ
note = codes "note.txt"

first_zero : (k n : ℕ) → first (take 11 (drop k (replicate n 0))) ≡ 0
first_zero zero zero = refl
first_zero zero (suc n) = refl
first_zero (suc k) zero = refl
first_zero (suc k) (suc n) = first_zero k n

no_name : (i : ℕ) → first (dir_of (contents new_disk) i).name ≡ 0
unfolding dir_of dirent_at bytes_of
no_name i = first_zero (entry_off i) 512

no_files : (name : List ℕ) → ClustersValid (dir_of (contents new_disk)) name
unfolding ClustersValid
no_files name i h used hit = absurd (used (no_name i))

note_name : first (name_to_fat83 note) ≡ b'N'
unfolding name_to_fat83 fat83_loop
note_name = refl

abbrev hello : List ℕ
hello = codes "hello"

abbrev saved : ℤ × (Volume × Controller)
saved = fat12_write_file read write (some note) (some hello) 5 mounted

-- Five bytes are written, and three of them read.
fat12_read_file-fat12_write_file_example :
    ((place_for (contents new_disk) mounted.0.fat (name_to_fat83 note) ≡ none)
      × (saved.0 ≡ negsuc 0)
      × (contents saved.1.1 ≡ contents new_disk))
    ⊎ ((saved.0 ≡ pos 5)
        × ((fat12_read_file read write (some note) (some (0 ∷ 0 ∷ 0 ∷ 0 ∷ [])) 3 saved.1).0 ≡ pos 3)
        × ((fat12_read_file read write (some note) (some (0 ∷ 0 ∷ 0 ∷ 0 ∷ [])) 3 saved.1).1
            ≡ some (take 3 hello ++ (0 ∷ []))))
fat12_read_file-fat12_write_file_example =
    fat12_read_file-fat12_write_file works note hello 5 mounted refl refl refl (omega arith)
      (omega arith) (omega arith) (no_files (name_to_fat83 note)) (0 ∷ 0 ∷ 0 ∷ 0 ∷ []) 3
      (omega arith) (omega (arith, note_name)) (omega (arith, note_name))

-- A registry with one variable set.
abbrev vars : EnvTable
vars = record { key = codes "LANG"; value = codes "en"; is_set = true } ∷ []
