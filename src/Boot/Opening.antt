-- ===== src/Boot/Opening.antt =====
-- `menu_run` of kernel/menu.c, which `kernel_main` calls last: the snapshot of the boot.
use new_attempt.Base.{ap, ◌∙◌, ◌≡◌, refl, arith, ℕ}
use new_attempt.Status.{ok}
use new_attempt.Vga.Output.{show_lem, show_hook}
use new_attempt.Listing.{str}
use new_attempt.Mirror.{
  mirror_verify, snapshot_at, captured, synced, read_into, flag_all, live_slot, Snapshot,
}
use new_attempt.Mirror.Verify.{mirror_verify-mirror_capture, capture_at}
use new_attempt.Plugin.{plugin_count}
use new_attempt.Scheduler.{scheduler_task_count}
use new_attempt.Menu.{Kernel, menu_run, capture, readings, word_of}
use new_attempt.Menu.Step.{IsValid}

captured-counts :
    (memory : ℕ × ℕ) (k : Kernel)
    → let s =
        captured
          (synced (readings memory k) (snapshot_at k.mirror live_slot))
          (str "boot-snapshot")
          flag_all in
      (s.proc_count ≡ word_of (scheduler_task_count k.scheduler))
      × (s.plugin_count ≡ word_of (plugin_count k.plugins))
unfolding captured synced read_into readings
captured-counts memory k = (refl, refl)

-- The menu opens in a valid state, with a snapshot in slot 1 that verifies and that has the numbers of
-- tasks and plugins.
pub menu_run_lem :
    (memory : ℕ × ℕ) (k : Kernel)
    → IsValid k
    → IsValid (menu_run memory k)
      × (mirror_verify (menu_run memory k).mirror 1 ≡ ok)
      × ((snapshot_at (menu_run memory k).mirror 1).proc_count
          ≡ word_of (scheduler_task_count k.scheduler))
      × ((snapshot_at (menu_run memory k).mirror 1).plugin_count ≡ word_of (plugin_count k.plugins))
unfolding menu_run capture readings
menu_run_lem memory k v =
    let r = readings memory k in
    let label = str "boot-snapshot" in
    let (size, here) = capture_at r k.mirror k.bus 1 label flag_all v.slots (omega arith) in
    let (tasks, plugins) = captured-counts memory k in
    (
      record {
        screen = (show_lem _ _ (show_lem _ _ v.screen).0).0;
        keyboard = v.keyboard;
        slots = size;
        snap_low = v.snap_low;
        snap_high = v.snap_high;
      },
      (mirror_verify-mirror_capture r k.mirror k.bus 1 label flag_all v.slots (omega arith)).1,
      ap (λ (s : Snapshot). s.proc_count) here ∙ tasks,
      ap (λ (s : Snapshot). s.plugin_count) here ∙ plugins,
    )

-- It leaves the rest as it is.
pub menu_run-keeps :
    (memory : ℕ × ℕ) (k : Kernel)
    → ((menu_run memory k).kernel_state ≡ k.kernel_state)
      × ((menu_run memory k).scheduler ≡ k.scheduler)
      × ((menu_run memory k).plugins ≡ k.plugins)
      × ((menu_run memory k).modules ≡ k.modules)
unfolding menu_run capture
menu_run-keeps memory k = (refl, refl, refl, refl)

pub menu_run_hook : (memory : ℕ × ℕ) (k : Kernel) → (menu_run memory k).screen.hook ≡ k.screen.hook
unfolding menu_run capture
menu_run_hook memory k = show_hook _ _ ∙ show_hook _ _
