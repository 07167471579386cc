-- ===== src/Ata/Tests.antt =====
-- The theorems of adapters/ata.c at a controller in memory.
use new_attempt.Ata.{put_at, ◌∷◌, ata_read_sectors, List, ℕ}
use new_attempt.Ata.Drive.{run_of}
use new_attempt.Base.{arith, replicate, ◌≡◌}
use new_attempt.Status.{ok}
use new_attempt.Ata.Words.{bytes_of}
use new_attempt.Ata.Read.{ata_read_sectors_lem}
use new_attempt.Ata.Controller.{behaves, view, inb, outb, inw, outw, new_disk, full}

-- 512 bytes.
abbrev text : List ℕ
text = 65 ∷ 66 ∷ replicate 510 7

ata_read_sectors_lem_example :
    ((ata_read_sectors inb outb inw outw 19 2 text new_disk).0 ≡ ok)
    × ((ata_read_sectors inb outb inw outw 19 2 text new_disk).1
        ≡ put_at text 0 (bytes_of (run_of (full new_disk.cells) 19 2)))
    × ((view (ata_read_sectors inb outb inw outw 19 2 text new_disk).2).sectors
        ≡ full new_disk.cells)
ata_read_sectors_lem_example =
    ata_read_sectors_lem behaves 19 2 text new_disk (omega arith) (omega arith)
