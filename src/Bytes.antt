-- ===== src/Bytes.antt =====
-- kernel/memory.c: `memset_k` and `memcpy_k` on buffers of bytes. A write past the listed bytes
-- of a buffer changes nothing; the theorems give the sizes at which none happens.
use new_attempt.Base.{
  ℕ, zero, suc, ◌≤◌, ◌≡◌, refl, ap, List, [], ◌∷◌, ◌++◌, arith, length, take, drop, replicate,
}
use new_attempt.CString.{first, rest}

-- `while (len--) *p++ = val;`
unfoldable pub memset_k : List ℕ → ℕ → ℕ → List ℕ
memset_k p val zero = p
memset_k [] val (suc len) = []
memset_k (b ∷ p) val (suc len) = val ∷ memset_k p val len

-- `while (len--) *d++ = *s++;`
unfoldable pub memcpy_k : List ℕ → List ℕ → ℕ → List ℕ
memcpy_k d s zero = d
memcpy_k [] s (suc len) = []
memcpy_k (b ∷ d) s (suc len) = first s ∷ memcpy_k d (rest s) len

pub length-memset_k : (p : List ℕ) (val len : ℕ) → length (memset_k p val len) ≡ length p
unfolding memset_k
length-memset_k p val zero = refl
length-memset_k [] val (suc len) = refl
length-memset_k (b ∷ p) val (suc len) = ap suc (length-memset_k p val len)

-- `memset_k` fills the first `len` bytes and leaves the others.
pub memset_k_lem :
    (p : List ℕ) (val len : ℕ)
    → len ≤ length p
    → memset_k p val len ≡ replicate len val ++ drop len p
unfolding memset_k
memset_k_lem p val zero h = refl
memset_k_lem [] val (suc len) h = absurd (omega arith)
memset_k_lem (b ∷ p) val (suc len) h = ap (λ t. val ∷ t) (memset_k_lem p val len (omega arith))

pub length-memcpy_k : (d s : List ℕ) (len : ℕ) → length (memcpy_k d s len) ≡ length d
unfolding memcpy_k
length-memcpy_k d s zero = refl
length-memcpy_k [] s (suc len) = refl
length-memcpy_k (b ∷ d) s (suc len) = ap suc (length-memcpy_k d (rest s) len)

-- `memcpy_k` puts the first `len` bytes of `s` in front of what it leaves of `d`.
pub memcpy_k_lem :
    (d s : List ℕ) (len : ℕ)
    → len ≤ length d
    → len ≤ length s
    → memcpy_k d s len ≡ take len s ++ drop len d
unfolding memcpy_k
memcpy_k_lem d s zero h k = refl
memcpy_k_lem [] s (suc len) h k = absurd (omega arith)
memcpy_k_lem (b ∷ d) [] (suc len) h k = absurd (omega arith)
memcpy_k_lem (b ∷ d) (c ∷ s) (suc len) h k =
    ap (λ t. c ∷ t) (memcpy_k_lem d s len (omega arith) (omega arith))

-- A copy of a copy: what was copied in is copied out.
pub memcpy_k-memcpy_k :
    (buf d s : List ℕ) (n len : ℕ)
    → len ≤ length d
    → n ≤ len
    → memcpy_k buf (memcpy_k d s len) n ≡ memcpy_k buf s n
unfolding memcpy_k
memcpy_k-memcpy_k buf d s zero len h k = refl
memcpy_k-memcpy_k [] d s (suc n) len h k = refl
memcpy_k-memcpy_k (b ∷ buf) d s (suc n) zero h k = absurd (omega arith)
memcpy_k-memcpy_k (b ∷ buf) [] s (suc n) (suc len) h k = absurd (omega arith)
memcpy_k-memcpy_k (b ∷ buf) (c ∷ d) s (suc n) (suc len) h k =
    ap (λ t. first s ∷ t) (memcpy_k-memcpy_k buf d (rest s) n len (omega arith) (omega arith))
