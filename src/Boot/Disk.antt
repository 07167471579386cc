-- ===== src/Boot/Disk.antt =====
-- Step 14 of `kernel_main` ends, whatever the disk does, and leaves the tables of the kernel as they are.
use new_attempt.Fat12.Disk.{read_disk, write_disk}
use new_attempt.Base.{
  ◌≡◌, ◌++◌, some, ℕ, Bool, Bool-cases, inl, inr, refl, if◌then◌else◌, true, false,
}
use new_attempt.CString.{codes, is_zero}
use new_attempt.Listing.{str}
use new_attempt.Env.{EnvTable}
use new_attempt.Env.Disk.{env_load_total}
use new_attempt.Fat12.Volume.{Volume, fat12_init}
use new_attempt.Ata.{ata_init}
use new_attempt.Plugin.{is_ok}
use new_attempt.Boot.{Machine, Surroundings, say, pause, dash}
use new_attempt.Boot.Main.{overlay_env, mount_disk}
use new_attempt.Boot.Quiet.{IsQuiet, ◌then_quiet◌, pause-IsQuiet, say-IsQuiet}

module _ {C D : Type 0} where
  same-IsQuiet : (m : Machine C D) → IsQuiet m m
  same-IsQuiet m = record {
    valid = λ v. v;
    plugins = refl;
    scheduler = refl;
    modules = refl;
    line = refl;
    hook = refl;
    cells = refl;
  }

  disk-IsQuiet :
      (v : Volume) (d : D) (m : Machine C D) → IsQuiet m (record m { volume = v; disk = d })
  disk-IsQuiet v d m = record {
    valid = λ v. v;
    plugins = refl;
    scheduler = refl;
    modules = refl;
    line = refl;
    hook = refl;
    cells = refl;
  }

  env-IsQuiet :
      (t : EnvTable) (m : Machine C D)
      → IsQuiet m (record m { kernel = record m.kernel { env = t } })
  env-IsQuiet t m = record {
    valid = λ v. record {
      screen = v.screen;
      keyboard = v.keyboard;
      slots = v.slots;
      snap_low = v.snap_low;
      snap_high = v.snap_high;
    };
    plugins = refl;
    scheduler = refl;
    modules = refl;
    line = refl;
    hook = refl;
    cells = refl;
  }

  if_IsQuiet :
      (b : Bool) (m x y : Machine C D) → IsQuiet m x → IsQuiet m y → IsQuiet m (if b then x else y)
  if_IsQuiet true m x y s t = s
  if_IsQuiet false m x y s t = t

module _ {C D : Type 0} (inb : D → ℕ → ℕ × D) (outb : D → ℕ → ℕ → D) (inw : D → ℕ → ℕ × D)
    (outw : D → ℕ → ℕ → D) (e : Surroundings) where
  overlay_env_lem :
      (m : Machine C D)
      → (m1 : Machine C D) × (overlay_env inb outb inw outw e m ≡ some m1) × IsQuiet m m1
  unfolding overlay_env
  overlay_env_lem m =
      let ((r, t, (v, d)), done) =
        env_load_total (read_disk inb outb inw outw) (write_disk inb outb inw outw) m.env_buf
          m.kernel.env (m.volume, m.disk) in
      let m1 : Machine C D = record m {
        kernel = record m.kernel { env = t };
        volume = v;
        disk = d;
      } in
      let changed : IsQuiet m m1 = env-IsQuiet t m then_quiet disk-IsQuiet v d _ in
      rw (done, overlay_env)
        (
          _,
          refl,
          changed
              then_quiet if_IsQuiet (is_zero r) m1 _ _
                  (say-IsQuiet (str "[OK] Environment loaded from AIOS.ENV") m1) (same-IsQuiet m1),
        )

  pub mount_disk_lem :
      (m : Machine C D)
      → (m1 : Machine C D) × (mount_disk inb outb inw outw e m ≡ some m1) × IsQuiet m m1
  unfolding mount_disk
  mount_disk_lem m0 =
      let m = pause (e.arrivals 9) m0 in
      let (found, d) = ata_init inb outb inw outw m.disk in
      let m1 = pause (e.arrivals 10) (record m { disk = d }) in
      let m2 = say (str "[OK] ATA primary master detected") m1 in
      let absent = codes "[  ] ATA drive not present " ++ (dash ++ codes " disk I/O disabled") in
      let (mounted, (v, d2)) =
        fat12_init (read_disk inb outb inw outw) (write_disk inb outb inw outw)
          (m2.volume, m2.disk) in
      let m3 = pause (e.arrivals 11) (record m2 { volume = v; disk = d2 }) in
      let to_m1 : IsQuiet m0 m1 =
        pause-IsQuiet (e.arrivals 9) m0
        then_quiet disk-IsQuiet m.volume d m
        then_quiet pause-IsQuiet (e.arrivals 10) _ in
      let to_m3 : IsQuiet m0 m3 =
        to_m1
        then_quiet say-IsQuiet (str "[OK] ATA primary master detected") m1
        then_quiet disk-IsQuiet v d2 m2
        then_quiet pause-IsQuiet (e.arrivals 11) _ in
      elim (Bool-cases (is_ok found)) [
        | inl f ↦ elim (Bool-cases (is_ok mounted)) [
          | inl g ↦
              let (m4, done, quiet) = overlay_env_lem (say (str "[OK] FAT12 volume mounted") m3) in
              rw (f, g)
                (
                  m4,
                  done,
                  to_m3
                      then_quiet say-IsQuiet (str "[OK] FAT12 volume mounted") m3
                      then_quiet quiet,
                )
          | inr g ↦
              rw (f, g)
                (
                  _,
                  refl,
                  to_m3
                      then_quiet say-IsQuiet (str "[  ] FAT12 mount skipped (no FAT12 volume)") m3,
                )
        ]
        | inr f ↦ rw f (_, refl, to_m1 then_quiet say-IsQuiet (some absent) m1)
      ]
