-- ===== src/Keyboard/Decode.antt =====
-- `keyboard_poll` against a description of the keyboard: each scancode is a key, and a key changes
-- the modifiers or types a character.
use new_attempt.Base.{
  bool_eq, bool_eq_sound, xor, Bool, List, [], holds_below, holds_below_at, ap, arith, false,
  get_or, if◌then◌else◌, length-ring_items, ltb, map, not, refl, sym, take, take-all,
  take-append-take, true, ℕ, ◌&&◌, ◌++◌, ◌<◌, ◌==◌, ◌∙◌, ◌∷◌, ◌≡◌,
}
use new_attempt.Keyboard.{
  kb_buffer_size, keyboard_poll, kb_push, scancode_ascii_shift, is_shift_release, handle_scancode,
  Keyboard, scancode_ascii, is_shift_press,
}
use new_attempt.Keyboard.Queue.{typed-kb_push, typed, kb_push-IsValid, IsValid}
use mathlib.Core.List.{append_assoc, append-nil}

pub data Key : Type 0 where
  shift : Bool → Key
  caps_lock : Key
  char : ℕ → ℕ → Key
  silent : Key

-- The key of a scancode, with its character alone and with shift.
unfoldable pub classify : ℕ → Key
classify sc =
    if is_shift_press sc
    then shift true
    else if is_shift_release sc
    then shift false
    else if sc == 0x3A
    then caps_lock
    else if ltb sc 0x3A && not (get_or scancode_ascii sc 0 == 0)
    then char (get_or scancode_ascii sc 0) (get_or scancode_ascii_shift sc 0)
    else silent

-- The characters that a sequence of keys types. Shift and caps lock together undo one another.
unfoldable pub decode : Bool → Bool → List Key → List ℕ
decode s c [] = []
decode s c (shift b ∷ ks) = decode b c ks
decode s c (caps_lock ∷ ks) = decode s (not c) ks
decode s c (char plain shifted ∷ ks) = (if xor s c then shifted else plain) ∷ decode s c ks
decode s c (silent ∷ ks) = decode s c ks

-- A scancode types with shift exactly if it types without, and no table entry is past 0x39.
tables_agree :
    holds_below 58
      (λ sc. bool_eq (get_or scancode_ascii sc 0 == 0) (get_or scancode_ascii_shift sc 0 == 0))
    ≡ true
unfolding holds_below scancode_ascii scancode_ascii_shift
tables_agree = refl

shifted-zero :
    (sc : ℕ) → sc < 58 → (get_or scancode_ascii sc 0 == 0) ≡ (get_or scancode_ascii_shift sc 0 == 0)
shifted-zero sc h = bool_eq_sound _ _ (holds_below_at _ sc 58 h tables_agree)

-- What a key does to the driver.
press : Keyboard → Key → Keyboard
press k (shift b) = record k { shift_held = b }
press k caps_lock = record k { caps_active = not k.caps_active }
press k (char plain shifted) = kb_push k (if xor k.shift_held k.caps_active then shifted else plain)
press k silent = k

-- One round of the loop handles one key.
handle-press : (k : Keyboard) (sc : ℕ) → handle_scancode k sc ≡ press k (classify sc)
unfolding handle_scancode press classify
handle-press k sc = ground (arith, shifted-zero sc)

press-IsValid : {k : Keyboard} (key : Key) → IsValid k → IsValid (press k key)
unfolding press
press-IsValid (shift b) v = omega arith
press-IsValid caps_lock v = omega arith
press-IsValid (char plain shifted) v = kb_push-IsValid _ v
press-IsValid silent v = v

pub keyboard_poll-IsValid :
    (k : Keyboard) (scs : List ℕ) → IsValid k → IsValid (keyboard_poll k scs)
unfolding keyboard_poll
keyboard_poll-IsValid k [] v = v
keyboard_poll-IsValid k (sc ∷ scs) v =
    keyboard_poll-IsValid (handle_scancode k sc) scs
      (rw (handle-press k sc) (press-IsValid (classify sc) v))

kb_push-flags :
    (k : Keyboard) (c : ℕ)
    → ((kb_push k c).shift_held ≡ k.shift_held) × ((kb_push k c).caps_active ≡ k.caps_active)
unfolding kb_push
kb_push-flags k c = ground arith

-- The loop over keys.
press_all : Keyboard → List Key → Keyboard
press_all k [] = k
press_all k (key ∷ keys) = press_all (press k key) keys

poll-press_all :
    (k : Keyboard) (scs : List ℕ) → keyboard_poll k scs ≡ press_all k (map classify scs)
unfolding keyboard_poll press_all
poll-press_all k [] = refl
poll-press_all k (sc ∷ scs) = rw (handle-press k sc) (poll-press_all (press k (classify sc)) scs)

typed-press_all :
    (k : Keyboard) (keys : List Key)
    → IsValid k
    → typed (press_all k keys)
      ≡ take kb_buffer_size (typed k ++ decode k.shift_held k.caps_active keys)
unfolding press_all press decode
typed-press_all k [] v = sym (
    ap (take kb_buffer_size) (append-nil (typed k))
    ∙ take-all kb_buffer_size (typed k) (
        omega
          (arith, length-ring_items 0 kb_buffer_size k.kb_buf k.kb_tail k.kb_count, v.count_in)))
typed-press_all k (shift b ∷ keys) v =
    typed-press_all (press k (shift b)) keys (press-IsValid (shift b) v)
typed-press_all k (caps_lock ∷ keys) v =
    typed-press_all (press k caps_lock) keys (press-IsValid caps_lock v)
typed-press_all k (char plain shifted ∷ keys) v =
    let c = if xor k.shift_held k.caps_active then shifted else plain in
    let more = decode k.shift_held k.caps_active keys in
    typed-press_all (kb_push k c) keys (kb_push-IsValid c v)
    ∙ rw ((kb_push-flags k c).0, (kb_push-flags k c).1, typed-kb_push c v)
        (take-append-take kb_buffer_size (typed k ++ (c ∷ [])) more
          ∙ ap (take kb_buffer_size) (append_assoc (typed k) (c ∷ []) more))
typed-press_all k (silent ∷ keys) v = typed-press_all k keys v

-- `keyboard_poll` types exactly the characters of the keys whose scancodes it drains, in order, under
-- the modifiers held at each, behind those that wait; past 32 it drops them.
pub typed-keyboard_poll :
    (k : Keyboard) (scs : List ℕ)
    → IsValid k
    → typed (keyboard_poll k scs)
      ≡ take kb_buffer_size (typed k ++ decode k.shift_held k.caps_active (map classify scs))
typed-keyboard_poll k scs v = rw (poll-press_all k scs) (typed-press_all k (map classify scs) v)
