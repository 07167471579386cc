-- ===== src/Fat12/Disk.antt =====
-- The disk of env/fat12.c: the sectors that adapters/ata.c reads and writes, one at a time.
use new_attempt.Base.{
  All, Bool, List, ap, arith, ==-ne, ==-refl, length, refl, ℕ, ◌∙◌, ◌∷◌, ◌≡◌, ◌≢◌, [], put_at,
}
use new_attempt.Plugin.{is_ok}
use new_attempt.Ata.{ata_read_sectors, ata_write_sectors}
use new_attempt.Ata.Drive.{Drive, IsDrive, run_of, set_sector}
use new_attempt.Ata.Read.{ata_read_sectors_lem}
use new_attempt.Ata.Write.{ata_write_sectors_lem}
use new_attempt.Ata.Words.{bytes_of, bytes_of-words_at, length-bytes_of, put_at-all}
use new_attempt.Fat12.{bytes_per_sector}
use new_attempt.Fat12.Working.{Byte, IsWorking}
use mathlib.Core.List.{append-nil}

module _ {C : Type 0} (inb : C → ℕ → ℕ × C) (outb : C → ℕ → ℕ → C) (inw : C → ℕ → ℕ × C)
    (outw : C → ℕ → ℕ → C) where
  -- `ata_read_sectors(lba, 1, buf)` and `ata_write_sectors(lba, 1, buf)`, as env/fat12.c calls them.
  unfoldable pub read_disk : C → ℕ → List ℕ → Bool × List ℕ × C
  unfolding ata_read_sectors
  read_disk d lba buf =
      let r = ata_read_sectors inb outb inw outw lba 1 buf d in (is_ok r.0, r.1, r.2)

  unfoldable pub write_disk : C → ℕ → List ℕ → Bool × C
  unfolding ata_write_sectors
  write_disk d lba bytes =
      let r = ata_write_sectors inb outb inw outw lba 1 bytes d in (is_ok r.0, r.1)

-- The bytes of a sector of the drive.
abbrev pub sector_bytes : {C : Type 0} → (C → Drive) → C → ℕ → List ℕ
sector_bytes view c lba = bytes_of ((view c).sectors lba)

All-bytes_of : (ws : List ℕ) → All Byte (bytes_of ws)
unfolding bytes_of
All-bytes_of [] = tt
All-bytes_of (w ∷ ws) = (omega arith, (omega arith, All-bytes_of ws))

set_sector_same : (f : ℕ → List ℕ) (lba : ℕ) (ws : List ℕ) → set_sector f lba ws lba ≡ ws
unfolding set_sector
set_sector_same f lba ws = rw (==-refl lba) refl

set_sector_ne : (f : ℕ → List ℕ) (lba l : ℕ) (ws : List ℕ) → l ≢ lba → set_sector f lba ws l ≡ f l
unfolding set_sector
set_sector_ne f lba l ws h = rw (==-ne l lba h) refl

module _ {C : Type 0} {inb : C → ℕ → ℕ × C} {outb : C → ℕ → ℕ → C} {inw : C → ℕ → ℕ × C}
    {outw : C → ℕ → ℕ → C} {view : C → Drive} (drive : IsDrive inb outb inw outw view) where
  pub drive-IsWorking :
      IsWorking (read_disk inb outb inw outw) (write_disk inb outb inw outw) (sector_bytes view)
  unfolding read_disk write_disk run_of
  drive-IsWorking =
      let size = λ (c : C) (lba : ℕ).
        let n : length (sector_bytes view c lba) ≡ bytes_per_sector =
          omega (arith, length-bytes_of ((view c).sectors lba), drive.sized c lba) in
        n in
      record {
        sized = size;
        bytes = λ c lba. All-bytes_of ((view c).sectors lba);
        read_ok = λ c lba buf h.
            ap is_ok (ata_read_sectors_lem drive lba 1 buf c (omega arith) (omega arith)).0;
        read_bytes = λ c lba buf h room.
            (ata_read_sectors_lem drive lba 1 buf c (omega arith) (omega arith)).1
            ∙ ap (λ (ws : List ℕ). put_at buf 0 (bytes_of ws)) (append-nil _)
            ∙ put_at-all buf (sector_bytes view c lba) (omega (arith, size c lba));
        read_same = λ c lba buf h.
            ap {B = ℕ → List ℕ} (λ (f : ℕ → List ℕ) l. bytes_of (f l))
              (ata_read_sectors_lem drive lba 1 buf c (omega arith) (omega arith)).2;
        write_ok = λ c lba bytes h room. ap is_ok (ata_write_sectors_lem drive lba bytes c h).0;
        write_at = λ c lba bytes h room small.
            ap (λ (f : ℕ → List ℕ). bytes_of (f lba)) (ata_write_sectors_lem drive lba bytes c h).1
            ∙ ap bytes_of (set_sector_same (view c).sectors lba _)
            ∙ bytes_of-words_at 256 bytes (omega arith) small;
        write_other = λ c lba bytes l h room ne.
            ap (λ (f : ℕ → List ℕ). bytes_of (f l)) (ata_write_sectors_lem drive lba bytes c h).1
            ∙ ap bytes_of (set_sector_ne (view c).sectors lba l _ ne);
      }
