-- ===== src/Keyboard/Queue.antt =====
-- The ring buffer of characters against a first-in first-out queue of at most 32.
use new_attempt.Base.{
  List, [], ap, arith, length, length-append, length-ring_items, length-set, ring_items,
  ring_items-pop, ring_items-push, take, take-all, take-append_of_length, ℕ, ◌%◌, ◌++◌, ◌+◌, ◌<◌,
  ◌∷◌, ◌≡◌, ◌≤◌,
}
use new_attempt.Keyboard.{kb_buffer_size, keyboard_getchar, kb_push, Keyboard}

pub record IsValid (k : Keyboard) : Type 0 where
  pub slots : length k.kb_buf ≡ kb_buffer_size
  pub tail_in : k.kb_tail < kb_buffer_size
  pub count_in : k.kb_count ≤ kb_buffer_size
  pub head_at : k.kb_head ≡ (k.kb_tail + k.kb_count) % kb_buffer_size

-- The buffered characters, oldest first.
abbrev pub typed : Keyboard → List ℕ
typed k = ring_items 0 kb_buffer_size k.kb_buf k.kb_tail k.kb_count

pub kb_push-IsValid : {k : Keyboard} (c : ℕ) → IsValid k → IsValid (kb_push k c)
unfolding kb_push
kb_push-IsValid {k} c v = ground (arith, length-set k.kb_buf k.kb_head c)

-- A character goes behind the others, or is dropped when 32 wait; none of the others is lost.
pub typed-kb_push :
    {k : Keyboard} (c : ℕ)
    → IsValid k
    → typed (kb_push k c) ≡ take kb_buffer_size (typed k ++ (c ∷ []))
unfolding kb_push
typed-kb_push {k} c v = ground (
  arith,
  length-ring_items 0 kb_buffer_size k.kb_buf k.kb_tail k.kb_count,
  ring_items-push 0 kb_buffer_size k.kb_count k.kb_buf k.kb_tail k.kb_head c v.slots v.tail_in,
  take-all kb_buffer_size (typed k ++ (c ∷ [])),
  length-append (typed k) (c ∷ []),
  take-append_of_length kb_buffer_size (typed k) (c ∷ []),
)

-- The next character, if there is one, and what is left.
unfoldable pub getchar_spec : List ℕ → ℕ × List ℕ
getchar_spec [] = (0, [])
getchar_spec (c ∷ q) = (c, q)

-- `keyboard_getchar` takes the oldest character, and returns 0 on an empty buffer, which it leaves.
pub keyboard_getchar_refines :
    {k : Keyboard}
    → IsValid k
    → ((keyboard_getchar k).0, typed (keyboard_getchar k).1) ≡ getchar_spec (typed k)
unfolding keyboard_getchar getchar_spec ring_items
keyboard_getchar_refines {k} v =
    ground (arith, ring_items-pop 0 kb_buffer_size k.kb_buf k.kb_tail k.kb_count, typed-nil k)
  where
    typed-nil : (k : Keyboard) → k.kb_count ≡ 0 → typed k ≡ []
    typed-nil k e = ap (ring_items 0 kb_buffer_size k.kb_buf k.kb_tail) e

pub keyboard_getchar-IsValid : {k : Keyboard} → IsValid k → IsValid (keyboard_getchar k).1
unfolding keyboard_getchar
keyboard_getchar-IsValid {k} v = ground arith
