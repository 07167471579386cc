-- ===== src/Ata/Read.antt =====
-- The read of adapters/ata.c on a controller that behaves as Drive says.
use new_attempt.Ata.{
  cmd_read, reg_command, ata_setup_lba, ata_read_sectors, ata_poll_drq, ata_poll_bsy, word_bytes,
  ◌∷◌, sector_size, true, put_at, read_sectors_loop, read_words, List, ℕ, reg_data,
}
use new_attempt.Ata.Drive.{IsMoving, has_data, run_of, Drive, IsDrive}
use new_attempt.Base.{
  length-append, ◌%◌, ==-ne, ◌^◌, ◌≤◌, zero, ap, ◌∙◌, refl, subst, arith, ◌*◌, sym, length, ◌<◌,
  ◌≡◌, suc, none, [], ◌++◌, ◌+◌,
}
use new_attempt.Status.{ok}
use new_attempt.Ata.Words.{put_at-sector, put_at-put_at, put_at-empty, bytes_of}
use new_attempt.Ata.Poll.{ata_setup_lba_lem, ata_poll_drq_lem, ata_poll_bsy_lem}

pub has_data-append :
    (d : Drive) (ws rest : List ℕ)
    → d.received ≡ none
    → d.to_read ≡ ws ++ rest
    → 0 < length ws
    → has_data d ≡ true
has_data-append d [] rest r e h = absurd (omega arith)
has_data-append d (w ∷ ws) rest r e h = rw (r, e) refl

length-run_of :
    (sectors : ℕ → List ℕ)
    → ((l : ℕ) → length (sectors l) ≡ 256)
    → (lba n : ℕ) → length (run_of sectors lba n) ≡ n * 256
unfolding run_of
length-run_of sectors full lba zero = refl
length-run_of sectors full lba (suc n) = omega (
  arith,
  length-append (sectors lba) (run_of sectors (lba + 1) n),
  full lba,
  length-run_of sectors full (lba + 1) n,
)

module _ {C : Type 0} {inb : C → ℕ → ℕ × C} {outb : C → ℕ → ℕ → C} {inw : C → ℕ → ℕ × C}
    {outw : C → ℕ → ℕ → C} {view : C → Drive} (drive : IsDrive inb outb inw outw view) where
  -- The words of a sector that wait go to the buffer, from an offset on.
  read_words_lem :
      (n off : ℕ) (buf ws rest : List ℕ) (c : C)
      → (view c).to_read ≡ ws ++ rest
      → length ws ≡ n
      → n ≤ 256
      → length rest % 256 ≡ 0
      → (0 < n → IsMoving (view c))
      → ((read_words inb outb inw outw n off buf c).0 ≡ put_at buf off (bytes_of ws))
        × ((view (read_words inb outb inw outw n off buf c).1).to_read ≡ rest)
        × ((view (read_words inb outb inw outw n off buf c).1).received ≡ (view c).received)
        × ((view (read_words inb outb inw outw n off buf c).1).sectors ≡ (view c).sectors)
  unfolding read_words bytes_of
  read_words_lem zero off buf [] rest c e h most whole moving =
      (sym (put_at-empty buf off), e, refl, refl)
  read_words_lem zero off buf (w ∷ ws) rest c e h most whole moving = absurd (omega arith)
  read_words_lem (suc n) off buf [] rest c e h most whole moving = absurd (omega arith)
  read_words_lem (suc n) off buf (w ∷ ws) rest c e h most whole moving =
      let on = moving (omega arith) in
      let (word, left, received_same, same) = drive.read_word c w (ws ++ rest) on e in
      let (done, left1, received_kept, kept) =
        read_words_lem n (off + 2) (put_at buf off (word_bytes (inw c reg_data).0)) ws rest
          (inw c reg_data).1 left (omega arith) (omega arith) whole
          (λ some_left.
            drive.read_on c w (ws ++ rest) on e (omega (arith, length-append ws rest, h))) in
      (
        done
            ∙ ap (λ v. put_at (put_at buf off (word_bytes v)) (off + 2) (bytes_of ws)) word
            ∙ put_at-put_at buf off (word_bytes w) (bytes_of ws),
        left1,
        received_kept ∙ received_same,
        kept ∙ same,
      )

  read_sectors_loop_lem :
      (n s lba : ℕ) (buf : List ℕ) (sectors : ℕ → List ℕ) (c : C)
      → (view c).to_read ≡ run_of sectors lba n
      → (view c).received ≡ none
      → (view c).sectors ≡ sectors
      → ((read_sectors_loop inb outb inw outw n s buf c).0 ≡ ok)
        × ((read_sectors_loop inb outb inw outw n s buf c).1
            ≡ put_at buf (s * sector_size) (bytes_of (run_of sectors lba n)))
        × ((view (read_sectors_loop inb outb inw outw n s buf c).2).sectors ≡ sectors)
  unfolding read_sectors_loop run_of bytes_of
  read_sectors_loop_lem zero s lba buf sectors c e r k =
      (refl, sym (put_at-empty buf (s * sector_size)), k)
  read_sectors_loop_lem (suc n) s lba buf sectors c e r k =
      let sized : (l : ℕ) → length (sectors l) ≡ 256 =
        λ l. subst (λ (f : ℕ → List ℕ). length (f l) ≡ 256) k (drive.sized c l) in
      let full = sized lba in
      let (bsy_ok, d, bsy) = ata_poll_bsy_lem drive c in
      let c1 = (ata_poll_bsy inb outb inw outw c).1 in
      let waiting = ap (λ (d : Drive). d.to_read) bsy ∙ e in
      let none_received = ap (λ (d : Drive). d.received) bsy ∙ r in
      let (drq_ok, drq) = ata_poll_drq_lem drive c1 (ap (λ (d : Drive). d.wait) bsy) (
        has_data-append (view c1) (sectors lba) (run_of sectors (lba + 1) n) none_received waiting
          (omega arith)) in
      let c2 = (ata_poll_drq inb outb inw outw c1).1 in
      let (bytes, left, received_same, same) =
        read_words_lem 256 (s * sector_size) buf (sectors lba) (run_of sectors (lba + 1) n) c2
          (ap (λ (d : Drive). d.to_read) drq ∙ waiting) full (omega arith)
          (omega (arith, length-run_of sectors sized (lba + 1) n))
          (λ some_left. (
            ap (λ (d : Drive). d.wait) drq ∙ ap (λ (d : Drive). d.wait) bsy,
            ap (λ (d : Drive). d.delay) drq,
          )) in
      let next = read_words inb outb inw outw 256 (s * sector_size) buf c2 in
      let (done, bytes1, kept) =
        read_sectors_loop_lem n (s + 1) (lba + 1) next.0 sectors next.1 left
          (received_same ∙ ap (λ (d : Drive). d.received) drq ∙ none_received)
          (same ∙ ap (λ (d : Drive). d.sectors) drq ∙ ap (λ (d : Drive). d.sectors) bsy ∙ k) in
      rw (bsy_ok, drq_ok)
        (
          done,
          bytes1
              ∙ ap (λ b. put_at b ((s + 1) * sector_size) (bytes_of (run_of sectors (lba + 1) n)))
                  bytes
              ∙ put_at-sector buf s (sectors lba) (run_of sectors (lba + 1) n) full,
          kept,
        )

  -- On a controller that behaves as Drive says, `ata_read_sectors` ends with success for a count from 1 and
  -- sectors below 2^28, the buffer holds the bytes of the sectors asked for, in order, and is
  -- otherwise as it was, and no sector of the disk changes.
  pub ata_read_sectors_lem :
      (lba count : ℕ) (buf : List ℕ) (c : C)
      → 0 < count
      → lba + count ≤ 2 ^ 28
      → ((ata_read_sectors inb outb inw outw lba count buf c).0 ≡ ok)
        × ((ata_read_sectors inb outb inw outw lba count buf c).1
            ≡ put_at buf 0 (bytes_of (run_of (view c).sectors lba count)))
        × ((view (ata_read_sectors inb outb inw outw lba count buf c).2).sectors ≡ (view c).sectors)
  unfolding ata_read_sectors
  ata_read_sectors_lem lba count buf c some_count room =
      let (bsy_ok, d, bsy) = ata_poll_bsy_lem drive c in
      let c1 = (ata_poll_bsy inb outb inw outw c).1 in
      let (addressed, counted, same, idle) =
        ata_setup_lba_lem drive lba count c1 (omega arith) (ap (λ (d : Drive). d.wait) bsy) in
      let c2 = ata_setup_lba inb outb inw outw lba count c1 in
      let (to_read, received, kept) =
        drive.read_command c2 idle (omega (arith, counted)) (omega (arith, counted, addressed)) in
      let sectors_same = same ∙ ap (λ (d : Drive). d.sectors) bsy in
      rw (==-ne count 0 (omega arith), bsy_ok)
        (read_sectors_loop_lem count 0 lba buf (view c).sectors (outb c2 reg_command cmd_read)
          (to_read ∙ rw (addressed, counted) (ap (λ f. run_of f lba count) sectors_same)) received
          (kept ∙ sectors_same))
