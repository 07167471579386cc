-- ===== src/Menu/Tick.antt =====
-- One turn of kernel/menu.c.
use new_attempt.Base.{◌||◌, ◌==◌, Bool-cases, [], ◌∷◌, ◌≡◌, Bool, List, ℕ, refl, inl, inr}
use new_attempt.Menu.{
  str, black, light_green, color, snapshot_at, print, panic, CharPtr, Volume, kernel_shutdown,
  kernel_panic, KernelState, keyboard_getchar, Kernel, menu_tick,
}
use new_attempt.Menu.Step.{IsValid, IsStep, IsStep-trans, kernel_of, print-IsStep, command-IsStep}
use new_attempt.Keyboard.Queue.{keyboard_getchar-IsValid}

getchar-IsStep : (k : Kernel) → IsStep k (record k { keyboard = (keyboard_getchar k.keyboard).1 })
getchar-IsStep k = record {
  valid = λ v. record {
    screen = v.screen;
    keyboard = keyboard_getchar-IsValid v.keyboard;
    slots = v.slots;
    snap_low = v.snap_low;
    snap_high = v.snap_high;
  };
  boot = λ v. refl;
}

state-IsStep : (state : KernelState) (k : Kernel) → IsStep k (record k { kernel_state = state })
state-IsStep state k = record {
  valid = λ v. record {
    screen = v.screen;
    keyboard = v.keyboard;
    slots = v.slots;
    snap_low = v.snap_low;
    snap_high = v.snap_high;
  };
  boot = λ v. refl;
}

module _ {D : Type 0} (read : D → ℕ → List ℕ → Bool × List ℕ × D)
    (write : D → ℕ → List ℕ → Bool × D) where
  panic-IsStep :
      (msg : CharPtr) (k : Kernel) (d : Volume × D)
      → IsStep k (kernel_of (kernel_panic read write msg k d))
  unfolding kernel_panic
  panic-IsStep msg k d =
      IsStep-trans k (record k { kernel_state = panic }) _ (state-IsStep panic k) (print-IsStep _ _)

  shutdown-IsStep :
      (k : Kernel) (d : Volume × D) → IsStep k (kernel_of (kernel_shutdown read write k d))
  unfolding kernel_shutdown
  shutdown-IsStep k d =
      IsStep-trans k (record k { kernel_state = panic }) _ (state-IsStep panic k) (print-IsStep _ _)

  menu_tick-IsStep :
      (memory : ℕ × ℕ) (k : Kernel) (d : Volume × D)
      → IsStep k (kernel_of (menu_tick read write memory k d))
  unfolding menu_tick
  menu_tick-IsStep memory k d =
      let c = (keyboard_getchar k.keyboard).0 in
      let k0 : Kernel = record k { keyboard = (keyboard_getchar k.keyboard).1 } in
      let k1 = print (color light_green black ∷ []) k0 in
      let to_k1 =
        IsStep-trans k k0 k1 (getchar-IsStep k) (print-IsStep (color light_green black ∷ []) k0) in
      elim (Bool-cases (c == 0)) [
        | inl e ↦ rw e (getchar-IsStep k)
        | inr e ↦ elim (Bool-cases (c == b'k' || c == b'K')) [
          | inl f ↦
              rw (e, f)
                (IsStep-trans k k1 _ to_k1
                  (panic-IsStep (str "User-triggered test panic from main menu.") k1 d))
          | inr f ↦ elim (Bool-cases (c == b'q' || c == b'Q')) [
            | inl g ↦ rw (e, f, g) (IsStep-trans k k1 _ to_k1 (shutdown-IsStep k1 d))
            | inr g ↦ rw (e, f, g) (IsStep-trans k k1 _ to_k1 (command-IsStep memory c k1))
          ]
        ]
      ]

  -- Whatever key was typed, a turn of the menu leaves the cursor on the screen, the ring buffer of the
  -- keyboard valid and `snap_slot` within the user slots, and it leaves the snapshot of the boot, in
  -- slot 1, as it was.
  pub menu_tick_lem :
      (memory : ℕ × ℕ) (k : Kernel) (d : Volume × D)
      → IsValid k
      → IsValid (kernel_of (menu_tick read write memory k d))
        × (snapshot_at (kernel_of (menu_tick read write memory k d)).mirror 1
            ≡ snapshot_at k.mirror 1)
  menu_tick_lem memory k d v = let s = menu_tick-IsStep memory k d in (s.valid v, s.boot v)
