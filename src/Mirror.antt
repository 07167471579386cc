-- ===== src/Mirror.antt =====
-- kernel/mirror.h and kernel/mirror.c: the snapshots of the system's counters. The counters of the other
-- parts, as `mirror_sync` reads them, are the record `Readings`.
pub mod Verify
mod Tests
use new_attempt.Base.{
  Bool, List, [], false, get_or, if◌then◌else◌, leb, map, not, replicate, set, some, take, true, ℕ,
  ◌%◌, ◌+◌, ◌==◌, ◌^◌, ◌||◌, ◌∷◌,
}
use Prim.Native.Nat.{bit_xor}
use new_attempt.CString.{codes, CharPtr, strncpy_k}
use new_attempt.EventBus.{topic_mirror_sync, eventbus_publish, Bus}
use new_attempt.Status.{ok, err, Status}

abbrev pub mirror_slots : ℕ
mirror_slots = 4

abbrev pub label_len : ℕ
label_len = 20

abbrev pub live_slot : ℕ
live_slot = 0

abbrev pub flag_all : ℕ
flag_all = 0x0F

-- `mirror_snapshot_t`; `valid` is 0 or 1.
pub record Snapshot : Type 0 where
  pub label : List ℕ
  pub timestamp : ℕ
  pub flags : ℕ
  pub mem_used : ℕ
  pub mem_free : ℕ
  pub proc_count : ℕ
  pub plugin_count : ℕ
  pub event_pending : ℕ
  pub checksum : ℕ
  pub valid : Bool

-- `snapshots` and `sync_count`.
pub record Mirror : Type 0 where
  pub snapshots : List Snapshot
  pub sync_count : ℕ

-- `g_tick_count`, `memory_stats`, `scheduler_task_count`, `plugin_count` and `eventbus_pending`.
pub record Readings : Type 0 where
  pub tick : ℕ
  pub used : ℕ
  pub free_bytes : ℕ
  pub tasks : ℕ
  pub plugins : ℕ
  pub pending : ℕ

abbrev pub blank_snapshot : Snapshot
blank_snapshot = record {
  label = replicate label_len 0;
  timestamp = 0;
  flags = 0;
  mem_used = 0;
  mem_free = 0;
  proc_count = 0;
  plugin_count = 0;
  event_pending = 0;
  checksum = 0;
  valid = false;
}

abbrev pub snapshot_at : Mirror → ℕ → Snapshot
snapshot_at m i = get_or m.snapshots i blank_snapshot

-- The loop over the bytes of the label.
unfoldable pub label_checksum : List ℕ → ℕ → ℕ
label_checksum [] csum = csum
label_checksum (c ∷ cs) csum = label_checksum cs (bit_xor csum c)

unfoldable pub snapshot_checksum : Snapshot → ℕ
unfolding label_checksum
snapshot_checksum s =
    let c0 = label_checksum (take label_len s.label) 0 in
    let c1 = bit_xor c0 s.timestamp in
    let c2 = bit_xor c1 s.flags in
    let c3 = bit_xor c2 s.mem_used in
    let c4 = bit_xor c3 s.mem_free in
    let c5 = bit_xor c4 s.proc_count in
    let c6 = bit_xor c5 s.plugin_count in bit_xor c6 s.event_pending

unfoldable pub mirror_init : Mirror → Mirror
mirror_init m = record {
  snapshots = map (λ (s : Snapshot). record s { valid = false }) m.snapshots;
  sync_count = 0;
}

-- The fields that `mirror_sync` writes before the checksum.
unfoldable pub read_into : Readings → Snapshot → Snapshot
read_into r s = record s {
  timestamp = r.tick;
  flags = flag_all;
  mem_used = r.used;
  mem_free = r.free_bytes;
  proc_count = r.tasks;
  plugin_count = r.plugins;
  event_pending = r.pending;
}

-- The checksum is computed before the label is written.
unfoldable pub synced : Readings → Snapshot → Snapshot
unfolding read_into snapshot_checksum
synced r s =
    let t = read_into r s in
    record t {
      checksum = snapshot_checksum t;
      valid = true;
      label = strncpy_k t.label (some (codes "LIVE")) label_len;
    }

unfoldable pub mirror_sync : Readings → Mirror × Bus → Mirror × Bus
unfolding synced
mirror_sync r (m, b) =
    let n = (m.sync_count + 1) % 2 ^ 32 in
    let m1 : Mirror = record {
      snapshots = set m.snapshots live_slot (synced r (snapshot_at m live_slot));
      sync_count = n;
    } in
    if n % 0x100 == 0 then (m1, (eventbus_publish r.tick b topic_mirror_sync n).1) else (m1, b)

-- The snapshot that `mirror_capture` makes of the live one.
unfoldable pub captured : Snapshot → CharPtr → ℕ → Snapshot
unfolding snapshot_checksum
captured s label flags =
    let t : Snapshot = record s { flags = flags; label = strncpy_k s.label label label_len } in
    record t { checksum = snapshot_checksum t; valid = true }

unfoldable pub mirror_capture : Readings → Mirror × Bus → ℕ → CharPtr → ℕ → Status × (Mirror × Bus)
unfolding mirror_sync captured
mirror_capture r st slot label flags =
    let (m1, b1) = mirror_sync r st in
    let snapshot = captured (snapshot_at m1 live_slot) label flags in
    if leb mirror_slots slot
    then (err, st)
    else (ok, (record m1 { snapshots = set m1.snapshots slot snapshot }, b1))

unfoldable pub mirror_verify : Mirror → ℕ → Status
unfolding snapshot_checksum
mirror_verify m slot =
    let s = snapshot_at m slot in
    if leb mirror_slots slot || not s.valid
    then err
    else if s.checksum == snapshot_checksum s
    then ok
    else err
