-- ===== src/Mirror/Verify.antt =====
-- What `mirror_verify` says of the snapshots that kernel/mirror.c makes.
use new_attempt.Base.{
  take, List, Bool-cases, ap, arith, false, get_or, get_or-set_self, inl, inr, leb, length,
  length-set, refl, set, sym, true, ℕ, ◌%◌, ◌+◌, ◌<◌, ◌==◌, ◌^◌, ◌∙◌, ◌≡◌,
}
use new_attempt.Mirror.{
  label_checksum, bit_xor, blank_snapshot, Snapshot, captured, snapshot_checksum, ok, snapshot_at,
  mirror_slots, synced, CharPtr, live_slot, Bus, Mirror, mirror_verify, Readings, mirror_capture,
  mirror_sync,
}

mirror_sync-snapshots :
    (r : Readings) (m : Mirror) (b : Bus)
    → (mirror_sync r (m, b)).0.snapshots
      ≡ set m.snapshots live_slot (synced r (snapshot_at m live_slot))
unfolding mirror_sync
mirror_sync-snapshots r m b = elim (Bool-cases ((m.sync_count + 1) % 2 ^ 32 % 0x100 == 0)) [
  | inl e ↦ rw e refl
  | inr e ↦ rw e refl
]

-- `mirror_verify` accepts a valid snapshot with its own checksum.
verify_of :
    (m : Mirror) (slot : ℕ)
    → slot < mirror_slots
    → (snapshot_at m slot).valid ≡ true
    → (snapshot_at m slot).checksum ≡ snapshot_checksum (snapshot_at m slot)
    → mirror_verify m slot ≡ ok
unfolding mirror_verify
verify_of m slot lt v e = ground arith

captured-valid :
    (s : Snapshot) (label : CharPtr) (flags : ℕ) → (captured s label flags).valid ≡ true
unfolding captured
captured-valid s label flags = refl

captured-checksum :
    (s : Snapshot) (label : CharPtr) (flags : ℕ)
    → (captured s label flags).checksum ≡ snapshot_checksum (captured s label flags)
unfolding captured snapshot_checksum
captured-checksum s label flags = refl

verify-captured :
    (m : Mirror) (slot : ℕ) (s : Snapshot) (label : CharPtr) (flags : ℕ)
    → length m.snapshots ≡ mirror_slots
    → slot < mirror_slots
    → mirror_verify (record m { snapshots = set m.snapshots slot (captured s label flags) }) slot
      ≡ ok
verify-captured m slot s label flags size lt =
    let here =
      get_or-set_self m.snapshots slot (captured s label flags) blank_snapshot (omega arith) in
    verify_of (record m { snapshots = set m.snapshots slot (captured s label flags) }) slot lt
      (ap (λ (x : Snapshot). x.valid) here ∙ captured-valid s label flags)
      (ap (λ (x : Snapshot). x.checksum) here
        ∙ captured-checksum s label flags
        ∙ ap snapshot_checksum (sym here))

mirror_sync-length :
    (r : Readings) (m : Mirror) (b : Bus)
    → length (mirror_sync r (m, b)).0.snapshots ≡ length m.snapshots
mirror_sync-length r m b =
    ap length (mirror_sync-snapshots r m b) ∙ length-set m.snapshots live_slot _

-- A capture into one of the four slots succeeds, and the slot verifies: the checksum covers the label
-- and the flags given.
pub mirror_verify-mirror_capture :
    (r : Readings) (m : Mirror) (b : Bus) (slot : ℕ) (label : CharPtr) (flags : ℕ)
    → length m.snapshots ≡ mirror_slots
    → slot < mirror_slots
    → ((mirror_capture r (m, b) slot label flags).0 ≡ ok)
      × (mirror_verify (mirror_capture r (m, b) slot label flags).1.0 slot ≡ ok)
unfolding mirror_capture
mirror_verify-mirror_capture r m b slot label flags size lt =
    let inside : leb mirror_slots slot ≡ false = ground arith in
    let room = mirror_sync-length r m b ∙ size in
    rw inside (
      refl,
      verify-captured (mirror_sync r (m, b)).0 slot (snapshot_at (mirror_sync r (m, b)).0 live_slot)
          label flags room lt,
    )

live_at :
    (r : Readings) (m : Mirror) (b : Bus)
    → length m.snapshots ≡ mirror_slots
    → snapshot_at (mirror_sync r (m, b)).0 live_slot ≡ synced r (snapshot_at m live_slot)
live_at r m b size =
    ap (λ l. get_or l live_slot blank_snapshot) (mirror_sync-snapshots r m b)
    ∙ get_or-set_self m.snapshots live_slot _ blank_snapshot (omega arith)

-- What a capture leaves: a slot with the live counters, the label and the flags given.
pub capture_at :
    (r : Readings) (m : Mirror) (b : Bus) (slot : ℕ) (label : CharPtr) (flags : ℕ)
    → length m.snapshots ≡ mirror_slots
    → slot < mirror_slots
    → (length (mirror_capture r (m, b) slot label flags).1.0.snapshots ≡ mirror_slots)
      × (snapshot_at (mirror_capture r (m, b) slot label flags).1.0 slot
          ≡ captured (synced r (snapshot_at m live_slot)) label flags)
unfolding mirror_capture
capture_at r m b slot label flags size lt =
    let inside : leb mirror_slots slot ≡ false = ground arith in
    let m1 = (mirror_sync r (m, b)).0 in
    let room = mirror_sync-length r m b ∙ size in
    rw inside (
      length-set m1.snapshots slot _ ∙ room,
      get_or-set_self m1.snapshots slot _ blank_snapshot (omega arith)
          ∙ ap (λ s. captured s label flags) (live_at r m b size),
    )

-- The checksum from that of a label on, with the counters read and all flags.
unfoldable pub with_counters : Readings → ℕ → ℕ
with_counters r c =
    let c1 = bit_xor (bit_xor c r.tick) 0x0F in
    let c2 = bit_xor (bit_xor c1 r.used) r.free_bytes in
    bit_xor (bit_xor (bit_xor c2 r.tasks) r.plugins) r.pending

-- The exclusive or of the bytes of a label, all 20 of them.
unfoldable pub label_sum : List ℕ → ℕ
unfolding label_checksum
label_sum label = label_checksum (take 20 label) 0
