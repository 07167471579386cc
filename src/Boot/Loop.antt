-- ===== src/Boot/Loop.antt =====
-- The loop of `kernel_main`: what stays as the boot left it.
use new_attempt.Fat12.Disk.{read_disk, write_disk}
use new_attempt.Base.{
  Bool, subst, ap, ◌∙◌, ◌≡◌, refl, ℕ, some, if◌then◌else◌, sym, true, false, not, ◌==◌,
}
use new_attempt.Status.{Status, ok, err}
use new_attempt.Mirror.{Mirror, Snapshot, mirror_verify, snapshot_at, snapshot_checksum}
use new_attempt.Modules.{System}
use new_attempt.Serial.Port.{IsPort, Port}
use new_attempt.Serial.Adapter.{Line}
use new_attempt.Menu.{Kernel, mirror_restore}
use new_attempt.Menu.Step.{IsValid}
use new_attempt.Menu.Runs.{Reaches, Reaches-IsValid}
use new_attempt.Boot.{Machine, Surroundings}
use new_attempt.Boot.Main.{kernel_main}
use new_attempt.Boot.Run.{IsOff, kernel_main-IsBooted}

-- What `mirror_verify` says of slot 1 depends on its snapshot alone.
verdict : Snapshot → Status
verdict s = if not s.valid then err else if s.checksum == snapshot_checksum s then ok else err

verify-verdict : (m : Mirror) → mirror_verify m 1 ≡ verdict (snapshot_at m 1)
unfolding mirror_verify verdict
verify-verdict m = refl

verdict_cases :
    (b d : Bool) → (if not b then err else if d then ok else err) ≡ ok → (b ≡ true) × (d ≡ true)
verdict_cases true true h = (refl, refl)
verdict_cases true false h = absurd (cc h)
verdict_cases false d h = absurd (cc h)

-- A slot 1 that verifies is restored.
restore_lem : (k : Kernel) → mirror_verify k.mirror 1 ≡ ok → (mirror_restore 1 k).0 ≡ ok
unfolding mirror_restore verdict
restore_lem k h =
    let s = snapshot_at k.mirror 1 in
    let (valid, sum) =
      verdict_cases s.valid (s.checksum == snapshot_checksum s)
        (sym (verify-verdict k.mirror) ∙ h) in
    rw (valid, sum) refl

module _ {C D : Type 0} (e : Surroundings) {inb : C → ℕ → ℕ × C} {outb : C → ℕ → ℕ → C}
    {view : C → Port} {rounds : ℕ} (port : IsPort inb outb view rounds)
    (other : ℕ → System (Line C) → Status × System (Line C)) (disk_inb : D → ℕ → ℕ × D)
    (disk_outb : D → ℕ → ℕ → D) (disk_inw : D → ℕ → ℕ × D) (disk_outw : D → ℕ → ℕ → D) where
  -- In every state of the loop after `kernel_main` has booted from power-on, whatever is typed and
  -- whatever the tasks do, the screen and the ring buffer of the keyboard are valid, the snapshot
  -- of the boot still verifies, and a restore from it succeeds.
  pub kernel_main-mirror_restore :
      (m m1 : Machine C D) (c : C) (l : Kernel)
      → IsOff c m
      → kernel_main e inb outb rounds other disk_inb disk_outb disk_inw disk_outw m ≡ some m1
      → Reaches
          (read_disk disk_inb disk_outb disk_inw disk_outw)
          (write_disk disk_inb disk_outb disk_inw disk_outw)
          m1.kernel
          l
      → IsValid l × (mirror_verify l.mirror 1 ≡ ok) × ((mirror_restore 1 l).0 ≡ ok)
  kernel_main-mirror_restore m m1 c l off done reaches =
      let (m2, done2, booted) =
        kernel_main-IsBooted e port other disk_inb disk_outb disk_inw disk_outw m c off in
      let same : m2 ≡ m1 = cc (done, done2) in
      let (valid, boot) =
        Reaches-IsValid _ _ (subst (λ (x : Machine C D). IsValid x.kernel) same booted.valid)
          reaches in
      let verifies =
        verify-verdict l.mirror
        ∙ ap verdict boot
        ∙ sym (verify-verdict m1.kernel.mirror)
        ∙ ap (λ (x : Machine C D). mirror_verify x.kernel.mirror 1) (sym same)
        ∙ booted.verifies in
      (valid, verifies, restore_lem l verifies)
