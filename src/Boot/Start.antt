-- ===== src/Boot/Start.antt =====
-- Steps 1 to 7 and 11 of `kernel_main`: the parts after their init functions, and the built-in tasks.
use new_attempt.Base.{List, ◌≡◌, refl, arith, length-map, length-replicate, ◌∙◌, ap, ◌*◌}
use new_attempt.Vga.{
  vga_update_cursor, vga_clear, Screen, vga_init, width, height, blank_cell, vga_make_color,
  light_green, black, vga_make_color, light_green, black,
}
use new_attempt.Vga.Output.{Output, show, show_lem}
use new_attempt.Vga.Cursor
use new_attempt.Memory.{Cells, memory_init}
use new_attempt.Plugin.{Plugins, plugin_manager_init}
use new_attempt.Scheduler.{Scheduler, scheduler_init}
use new_attempt.Loader.{Registry}
use new_attempt.Mirror.{mirror_init}
use new_attempt.Serial.Adapter.{Line}
use new_attempt.Menu.Step.{IsValid}
use new_attempt.Boot.{Machine, add_all, built_in_tasks}
use new_attempt.Boot.Steps.{start_parts, add_tasks}
use new_attempt.Boot.Quiet.{IsQuiet}

-- A valid machine with these tables.
pub record Holds {C D : Type 0} (p : Plugins) (s : Scheduler) (r : Registry) (c : Cells)
    (l : Line C) (m : Machine C D) : Type 0 where
  pub valid : IsValid m.kernel
  pub plugins : m.kernel.plugins ≡ p
  pub scheduler : m.kernel.scheduler ≡ s
  pub modules : m.kernel.modules ≡ r
  pub line : m.line ≡ l
  pub cells : m.cells ≡ c

pub quiet-Holds :
    {C D : Type 0} {p : Plugins} {s : Scheduler} {r : Registry} {c : Cells} {l : Line C}
    {m n : Machine C D}
    → IsQuiet m n
    → Holds p s r c l m
    → Holds p s r c l n
quiet-Holds q h = record {
  valid = q.valid h.valid;
  plugins = q.plugins ∙ h.plugins;
  scheduler = q.scheduler ∙ h.scheduler;
  modules = q.modules ∙ h.modules;
  line = q.line ∙ h.line;
  cells = q.cells ∙ h.cells;
}

vga_init-IsValid : (s : Screen) → Cursor.IsValid (vga_init s)
unfolding vga_init vga_clear vga_update_cursor
vga_init-IsValid s =
    let start : Screen = record s {
      vga_row = 0;
      vga_col = 0;
      vga_color = vga_make_color light_green black;
    } in
    record {
      row = omega arith;
      col = omega arith;
      cells = length-replicate (height * width) (blank_cell start);
    }

shown : {s : Screen} (os : List Output) → Cursor.IsValid s → Cursor.IsValid (show os s)
shown {s} os v = (show_lem os s v).0

module _ {C D : Type 0} where
  pub start_parts-Holds :
      (m : Machine C D)
      → IsValid m.kernel
      → Holds
          (plugin_manager_init m.kernel.plugins)
          (scheduler_init m.kernel.scheduler)
          m.kernel.modules
          (memory_init m.cells)
          m.line
          (start_parts m)
  unfolding start_parts mirror_init
  start_parts-Holds m v = record {
    valid = record {
      screen = shown _ (
          shown _ (
            shown _ (
              shown _ (
                shown _
                  (shown _ (shown _ (shown _ (shown _ (vga_init-IsValid m.kernel.screen)))))))));
      keyboard = v.keyboard;
      slots = length-map _ m.kernel.mirror.snapshots ∙ v.slots;
      snap_low = v.snap_low;
      snap_high = v.snap_high;
    };
    plugins = refl;
    scheduler = refl;
    modules = refl;
    line = refl;
    cells = refl;
  }

  pub add_tasks-Holds :
      {p : Plugins} {s : Scheduler} {r : Registry} {c : Cells} {l : Line C} {m : Machine C D}
      → Holds p s r c l m
      → Holds p (add_all built_in_tasks s) r c l (add_tasks m)
  unfolding add_tasks
  add_tasks-Holds {m} h = record {
    valid = record {
      screen = shown _ h.valid.screen;
      keyboard = h.valid.keyboard;
      slots = h.valid.slots;
      snap_low = h.valid.snap_low;
      snap_high = h.valid.snap_high;
    };
    plugins = h.plugins;
    scheduler = ap (add_all built_in_tasks) h.scheduler;
    modules = h.modules;
    line = h.line;
    cells = h.cells;
  }
