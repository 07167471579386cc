-- ===== src/Serial/Tests.antt =====
-- The theorems of adapters/adapter_serial.c at a port in memory.
use new_attempt.Keyboard.{Keyboard, kb_buffer_size}
use new_attempt.Base.{◌∷◌, [], ◌++◌, false, replicate}
use new_attempt.CString.{codes}
use new_attempt.Serial.Com.{Com}

-- A line that waits at the port.
abbrev line_in : Com
line_in = record { busy = false; out = []; incoming = codes "ls" ++ (13 ∷ []); latch = false }

abbrev keyboard : Keyboard
keyboard = record {
  shift_held = false;
  caps_active = false;
  kb_buf = replicate kb_buffer_size 0;
  kb_head = 1;
  kb_tail = 0;
  kb_count = 1;
}
