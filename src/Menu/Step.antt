-- ===== src/Menu/Step.antt =====
-- What a command of kernel/menu.c leaves as it was.
use new_attempt.Vga.Cursor
use new_attempt.Keyboard.Queue
use new_attempt.Base.{
  [], ◌∷◌, ◌<◌, not, ◌||◌, ◌==◌, ◌^◌, ◌%◌, ◌+◌, length, leb, ◌≤◌, Bool-cases, set, ℕ, if◌then◌else◌,
  ◌≡◌, List, Bool, ◌∙◌, true, false, get_or-set_ne, length-set, arith, refl, inl, inr,
}
use new_attempt.Menu.{
  answer, restore_key, Status, mirror_verify, verified, halted, runs, mirror_restore, restored,
  flag_all, str, readings, mirror_slots, CharPtr, Bus, print, capture, Mirror, Output, snapshot_key,
  Readings, snapshot_at, Kernel, Outcome, command,
}
use new_attempt.Status.{ok, err}
use new_attempt.Vga.Output.{line, show_lem}
use new_attempt.Mirror.{blank_snapshot, synced, live_slot, mirror_sync, mirror_capture}

-- The screen and the ring buffer of the keyboard are valid, there are four snapshots, and `snap_slot` is
-- the slot of a user snapshot or the one behind them.
pub record IsValid (k : Kernel) : Type 0 where
  pub screen : Cursor.IsValid k.screen
  pub keyboard : Queue.IsValid k.keyboard
  pub slots : length k.mirror.snapshots ≡ mirror_slots
  pub snap_low : 2 ≤ k.snap_slot
  pub snap_high : k.snap_slot ≤ mirror_slots

-- The state `k` is valid after a step if it was before, and the snapshot of the boot is the same.
pub record IsStep (k l : Kernel) : Type 0 where
  pub valid : IsValid k → IsValid l
  pub boot : IsValid k → snapshot_at l.mirror 1 ≡ snapshot_at k.mirror 1

same-IsStep : (k : Kernel) → IsStep k k
same-IsStep k = record { valid = λ v. v; boot = λ v. refl }

pub IsStep-trans : (k l m : Kernel) → IsStep k l → IsStep l m → IsStep k m
IsStep-trans k l m s t = record {
  valid = λ v. t.valid (s.valid v);
  boot = λ v. t.boot (s.valid v) ∙ s.boot v;
}

if_IsStep : (b : Bool) (k l m : Kernel) → IsStep k l → IsStep k m → IsStep k (if b then l else m)
if_IsStep true k l m s t = s
if_IsStep false k l m s t = t

pub print-IsStep : (os : List Output) (k : Kernel) → IsStep k (print os k)
print-IsStep os k = record {
  valid = λ v. record {
    screen = (show_lem os k.screen v.screen).0;
    keyboard = v.keyboard;
    slots = v.slots;
    snap_low = v.snap_low;
    snap_high = v.snap_high;
  };
  boot = λ v. refl;
}

sync_lem :
    (r : Readings) (m : Mirror) (b : Bus)
    → ((mirror_sync r (m, b)).0.snapshots
        ≡ set m.snapshots live_slot (synced r (snapshot_at m live_slot)))
unfolding mirror_sync
sync_lem r m b = elim (Bool-cases ((m.sync_count + 1) % 2 ^ 32 % 0x100 == 0)) [
  | inl e ↦ rw e refl
  | inr e ↦ rw e refl
]

-- A sync changes the live snapshot alone.
pub sync-keeps :
    (r : Readings) (m : Mirror) (b : Bus)
    → (length (mirror_sync r (m, b)).0.snapshots ≡ length m.snapshots)
      × (snapshot_at (mirror_sync r (m, b)).0 1 ≡ snapshot_at m 1)
sync-keeps r m b = rw (sync_lem r m b) (
  length-set m.snapshots live_slot _,
  get_or-set_ne m.snapshots live_slot 1 _ blank_snapshot (omega arith),
)

-- A capture in a user slot changes that slot and the live one.
capture_lem :
    (r : Readings) (m : Mirror) (b : Bus) (slot : ℕ) (label : CharPtr) (flags : ℕ)
    → 2 ≤ slot
    → let m1 = (mirror_capture r (m, b) slot label flags).1.0 in
      (length m1.snapshots ≡ length m.snapshots) × (snapshot_at m1 1 ≡ snapshot_at m 1)
unfolding mirror_capture
capture_lem r m b slot label flags h = elim (Bool-cases (leb mirror_slots slot)) [
  | inl e ↦ rw e (refl, refl)
  | inr e ↦
      rw (e, sync_lem r m b)
        (
          length-set _ slot _ ∙ length-set m.snapshots live_slot _,
          get_or-set_ne _ slot 1 _ blank_snapshot (omega arith)
              ∙ get_or-set_ne m.snapshots live_slot 1 _ blank_snapshot (omega arith),
        )
]

-- The slot that the key 4 captures in is 2 or 3.
slot_range :
    (s : ℕ)
    → 2 ≤ s
    → (2 ≤ (if leb mirror_slots s then 2 else s))
      × ((if leb mirror_slots s then 2 else s) < mirror_slots)
slot_range s h = ground arith

snapshot_key-IsStep : (memory : ℕ × ℕ) (k : Kernel) → IsStep k (snapshot_key memory k)
unfolding snapshot_key capture
snapshot_key-IsStep memory k =
    let slot = if leb mirror_slots k.snap_slot then 2 else k.snap_slot in
    let captured_in =
      capture_lem (readings memory k) k.mirror k.bus slot (str "user-snap") flag_all in
    record {
      valid = λ v.
          let (low, high) = slot_range k.snap_slot v.snap_low in
          record {
            screen = (show_lem _ k.screen v.screen).0;
            keyboard = v.keyboard;
            slots = (captured_in low).0 ∙ v.slots;
            snap_low = omega (arith, low, high);
            snap_high = omega (arith, low, high);
          };
      boot = λ v. (captured_in (slot_range k.snap_slot v.snap_low).0).1;
    }

restored-IsStep : (slot : ℕ) (k : Kernel) → IsStep k (restored slot k)
unfolding restored
restored-IsStep slot k = record {
  valid = λ v. record {
    screen = (show_lem _ _ (show_lem _ k.screen v.screen).0).0;
    keyboard = v.keyboard;
    slots = v.slots;
    snap_low = v.snap_low;
    snap_high = v.snap_high;
  };
  boot = λ v. refl;
}

if_result-IsStep :
    (b : Bool) (k : Kernel) (x y : Status × Kernel)
    → IsStep k x.1
    → IsStep k y.1
    → IsStep k (if b then x else y).1
if_result-IsStep true k x y s t = s
if_result-IsStep false k x y s t = t

restore-IsStep : (slot : ℕ) (k : Kernel) → IsStep k (mirror_restore slot k).1
unfolding mirror_restore
restore-IsStep slot k =
    let abort = line (str "[Mirror] Restore aborted: checksum mismatch!") ∷ [] in
    let bad = not (verified (mirror_verify k.mirror slot)) in
    if_result-IsStep (leb mirror_slots slot || not (snapshot_at k.mirror slot).valid) k (err, k)
      (if bad then (err, print abort k) else (ok, restored slot k)) (same-IsStep k)
      (if_result-IsStep bad k (err, print abort k) (ok, restored slot k) (print-IsStep abort k)
        (restored-IsStep slot k))

restore_key-IsStep : (k : Kernel) → IsStep k (restore_key k)
unfolding restore_key
restore_key-IsStep k =
    let note = line (str "[Menu] Restoring from boot snapshot (slot 1)...") ∷ [] in
    IsStep-trans k (print note k) (mirror_restore 1 (print note k)).1 (print-IsStep note k)
      (restore-IsStep 1 (print note k))

pub command-IsStep : (memory : ℕ × ℕ) (c : ℕ) (k : Kernel) → IsStep k (command memory c k)
unfolding command
command-IsStep memory c k =
    let shown = print (answer memory c k) k in
    if_IsStep (c == b'4') k (snapshot_key memory k)
      (if c == b'r' || c == b'R' then restore_key k else shown) (snapshot_key-IsStep memory k)
      (if_IsStep (c == b'r' || c == b'R') k (restore_key k) shown (restore_key-IsStep k)
        (print-IsStep (answer memory c k) k))

-- The kernel's state in an outcome.
abbrev pub kernel_of : {D : Type 0} → Outcome D → Kernel
kernel_of (runs k d) = k
kernel_of (halted k d) = k
