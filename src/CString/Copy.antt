-- ===== src/CString/Copy.antt =====
-- What `strlen_k` and `strncpy_k` do to the string in a buffer.
use new_attempt.Base.{
  ℕ, zero, suc, ◌+◌, ◌-◌, ◌≤◌, ◌<◌, ◌≡◌, refl, ap, none, some, List, [], ◌∷◌, ◌==◌, arith, length,
  take, Bool-cases, inl, inr,
}
use new_attempt.CString.{CharPtr, cstr, strlen_loop, strlen_k, strncpy_loop, strncpy_k}

pub strlen_loop-cstr : (s : List ℕ) (n : ℕ) → strlen_loop s n ≡ n + length (cstr s)
unfolding strlen_loop cstr
strlen_loop-cstr [] n = omega arith
strlen_loop-cstr (c ∷ s) n = ground (arith, strlen_loop-cstr s (n + 1))

-- `strlen_k` counts the bytes of the string.
pub strlen_k-cstr : (s : List ℕ) → strlen_k (some s) ≡ length (cstr s)
unfolding strlen_k
strlen_k-cstr s = omega (arith, strlen_loop-cstr s 0)

pub length-cstr : (s : List ℕ) → length (cstr s) ≤ length s
unfolding cstr
length-cstr [] = omega arith
length-cstr (c ∷ s) = ground (arith, length-cstr s)

pub length-strncpy_loop : (n : ℕ) (dst src : List ℕ) → length (strncpy_loop n dst src) ≡ length dst
unfolding strncpy_loop
length-strncpy_loop n [] src = refl
length-strncpy_loop zero (d ∷ dst) src = refl
length-strncpy_loop (suc n) (d ∷ dst) [] = refl
length-strncpy_loop (suc n) (d ∷ dst) (c ∷ src) = ground (arith, length-strncpy_loop n dst src)

-- `strncpy_k` writes inside the buffer: its size does not change.
pub length-strncpy_k :
    (dst : List ℕ) (src : CharPtr) (n : ℕ) → length (strncpy_k dst src n) ≡ length dst
unfolding strncpy_k
length-strncpy_k dst none n = length-strncpy_loop 0 dst []
length-strncpy_k dst (some src) n = length-strncpy_loop (n - 1) dst src

pub cstr-strncpy_loop :
    (n : ℕ) (dst src : List ℕ) → n < length dst → cstr (strncpy_loop n dst src) ≡ take n (cstr src)
unfolding cstr strncpy_loop
cstr-strncpy_loop n [] src h = absurd (omega arith)
cstr-strncpy_loop zero (d ∷ dst) src h = refl
cstr-strncpy_loop (suc n) (d ∷ dst) [] h = refl
cstr-strncpy_loop (suc n) (d ∷ dst) (c ∷ src) h = elim (Bool-cases (c == 0)) [
  | inl e ↦ rw e
  | inr e ↦ rw e (rw e (ap (λ t. c ∷ t) (cstr-strncpy_loop n dst src (omega arith))))
]

-- In a buffer of at least `n` bytes `strncpy_k` leaves the first `n - 1` bytes of the source string,
-- terminated inside the buffer.
pub cstr-strncpy_k :
    (dst src : List ℕ) (n : ℕ)
    → 0 < n
    → n ≤ length dst
    → cstr (strncpy_k dst (some src) n) ≡ take (n - 1) (cstr src)
unfolding strncpy_k
cstr-strncpy_k dst src n p h = cstr-strncpy_loop (n - 1) dst src (omega arith)
