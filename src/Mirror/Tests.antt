-- ===== src/Mirror/Tests.antt =====
-- The snapshots at boot, the first sync, and the theorems at them.
use new_attempt.CString.{strncpy_k}
use new_attempt.Base.{refl, replicate, ◌≡◌}
use new_attempt.Mirror.{
  err, strncpy_k, label_checksum, snapshot_checksum, read_into, live_slot, ok, synced,
  blank_snapshot, mirror_sync, mirror_slots, mirror_verify, Readings, Mirror,
}
use new_attempt.EventBus.{blank_event, Bus}

abbrev static : Mirror
static = record { snapshots = replicate mirror_slots blank_snapshot; sync_count = 0 }

abbrev idle_bus : Bus
idle_bus = record {
  handlers = replicate 32 (replicate 8 0);
  queue = replicate 64 blank_event;
  q_head = 0;
  q_tail = 0;
  q_count = 0;
}

abbrev readings : Readings
readings = record { tick = 1; used = 0; free_bytes = 524268; tasks = 2; plugins = 3; pending = 0 }

-- The first sync leaves a live slot that does not verify, the second one a slot that does.
first_sync : mirror_verify (mirror_sync readings (static, idle_bus)).0 live_slot ≡ err
unfolding mirror_verify mirror_sync synced read_into snapshot_checksum label_checksum strncpy_k
first_sync = refl

second_sync :
    mirror_verify (mirror_sync readings (mirror_sync readings (static, idle_bus))).0 live_slot ≡ ok
unfolding mirror_verify mirror_sync synced read_into snapshot_checksum label_checksum strncpy_k
second_sync = refl
