-- ===== src/Menu/Runs.antt =====
-- The system between two states of the loop of kernel/kernel.c: what its tasks and the keyboard's interrupt do.
use new_attempt.Base.{◌∙◌, ◌≡◌, Bool, List, ℕ, refl}
use new_attempt.Menu.{print, readings, kernel_heartbeat, snapshot_at, Volume, Kernel, menu_tick}
use new_attempt.Menu.Step.{sync-keeps, kernel_of, IsValid}
use new_attempt.Menu.Tick.{menu_tick_lem}
use new_attempt.Keyboard.{keyboard_push, keyboard_poll}
use new_attempt.Keyboard.Decode.{keyboard_poll-IsValid}
use new_attempt.Mirror.{mirror_sync}
use new_attempt.Vga.Output.{Output, show_lem}
use new_attempt.Plugin.{Plugins}
use new_attempt.Scheduler.{Scheduler}
use new_attempt.EventBus.{Bus}
use new_attempt.Keyboard.Queue.{kb_push-IsValid}

module _ {D : Type 0} (read : D → ℕ → List ℕ → Bool × List ℕ × D)
    (write : D → ℕ → List ℕ → Bool × D) where
  -- `l` is reached from `k`: by a character from the serial port, scancodes from the keyboard, the
  -- heartbeat, a sync of the mirror, a turn of the menu, or the work of the event handlers, the plugins
  -- and the scheduler, which print and change the bus, the plugins and the scheduler. Between the turns the
  -- memory in use and the disk are what they may be.
  pub data Reaches (k : Kernel) : Kernel → Type 0 where
    start : Reaches k k
    key :
        (l : Kernel) (c : ℕ)
        → Reaches k l
        → Reaches k (record l { keyboard = keyboard_push l.keyboard c })
    beat : (l : Kernel) → Reaches k l → Reaches k (kernel_heartbeat l)
    poll :
        (l : Kernel) (scancodes : List ℕ)
        → Reaches k l
        → Reaches k (record l { keyboard = keyboard_poll l.keyboard scancodes })
    sync :
        (l : Kernel) (memory : ℕ × ℕ)
        → Reaches k l
        → Reaches k (record l {
          mirror = (mirror_sync (readings memory l) (l.mirror, l.bus)).0;
          bus = (mirror_sync (readings memory l) (l.mirror, l.bus)).1;
        })
    work :
        (l : Kernel) (os : List Output) (b : Bus) (p : Plugins) (s : Scheduler)
        → Reaches k l
        → Reaches k (print os (record l { bus = b; plugins = p; scheduler = s }))
    turn :
        (l : Kernel) (memory : ℕ × ℕ) (d : Volume × D)
        → Reaches k l
        → Reaches k (kernel_of (menu_tick read write memory l d))

  -- In every state that the menu reaches from a valid one, whatever is typed, the state is valid and the
  -- snapshot that was taken at the boot is still in slot 1.
  pub Reaches-IsValid :
      {k l : Kernel}
      → IsValid k
      → Reaches k l
      → IsValid l × (snapshot_at l.mirror 1 ≡ snapshot_at k.mirror 1)
  unfolding keyboard_push kernel_heartbeat
  Reaches-IsValid v start = (v, refl)
  Reaches-IsValid v (key l c r) =
      let (valid, boot) = Reaches-IsValid v r in
      (
        record {
          screen = valid.screen;
          keyboard = kb_push-IsValid c valid.keyboard;
          slots = valid.slots;
          snap_low = valid.snap_low;
          snap_high = valid.snap_high;
        },
        boot,
      )
  Reaches-IsValid v (beat l r) =
      let (valid, boot) = Reaches-IsValid v r in
      (
        record {
          screen = valid.screen;
          keyboard = valid.keyboard;
          slots = valid.slots;
          snap_low = valid.snap_low;
          snap_high = valid.snap_high;
        },
        boot,
      )
  Reaches-IsValid v (poll l scancodes r) =
      let (valid, boot) = Reaches-IsValid v r in
      (
        record {
          screen = valid.screen;
          keyboard = keyboard_poll-IsValid l.keyboard scancodes valid.keyboard;
          slots = valid.slots;
          snap_low = valid.snap_low;
          snap_high = valid.snap_high;
        },
        boot,
      )
  Reaches-IsValid v (sync l memory r) =
      let (valid, boot) = Reaches-IsValid v r in
      let (size, kept) = sync-keeps (readings memory l) l.mirror l.bus in
      (
        record {
          screen = valid.screen;
          keyboard = valid.keyboard;
          slots = size ∙ valid.slots;
          snap_low = valid.snap_low;
          snap_high = valid.snap_high;
        },
        kept ∙ boot,
      )
  Reaches-IsValid v (work l os b p s r) =
      let (valid, boot) = Reaches-IsValid v r in
      (
        record {
          screen = (show_lem os l.screen valid.screen).0;
          keyboard = valid.keyboard;
          slots = valid.slots;
          snap_low = valid.snap_low;
          snap_high = valid.snap_high;
        },
        boot,
      )
  Reaches-IsValid v (turn l memory d r) =
      let (valid, boot) = Reaches-IsValid v r in
      let (valid1, boot1) = menu_tick_lem read write memory l d valid in (valid1, boot1 ∙ boot)
