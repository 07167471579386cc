-- ===== src/CString.antt =====
-- kernel/kstring.c: strings as buffers of bytes. A `char *` is the list of the bytes from its
-- address on, and `none` where the code tests for NULL; a read past the list is a zero byte.
pub mod Copy
pub mod Compare
mod Tests
use new_attempt.Base.{
  ℕ, zero, suc, ◌+◌, ◌-◌, Bool, true, false, Option, none, some, List, [], ◌∷◌, ◌==◌, if◌then◌else◌,
}
use new_attempt.Base.Int.{ℤ, pos, negsuc, sub_ℕ}
use Prim.Native.String.{String}
use Prim.Native.Char.{code}

-- A `char *` that the code may find to be NULL.
abbrev pub CharPtr : Type 0
CharPtr = Option (List ℕ)

-- `*s`
abbrev pub first : List ℕ → ℕ
first [] = 0
first (c ∷ s) = c

-- `s + 1`
abbrev pub rest : List ℕ → List ℕ
rest [] = []
rest (c ∷ s) = s

-- The bytes of a text literal of the source, without its terminator.
abbrev pub codes : String → List ℕ
codes String.[] = []
codes (String.◌∷◌ c s) = code c ∷ codes s

-- The string that a buffer holds: its bytes before the first zero byte.
unfoldable pub cstr : List ℕ → List ℕ
cstr [] = []
cstr (c ∷ s) = if c == 0 then [] else c ∷ cstr s

-- The loop of `strlen_k`, `while (s[n]) n++`, from `n` on.
unfoldable pub strlen_loop : List ℕ → ℕ → ℕ
strlen_loop [] n = n
strlen_loop (c ∷ s) n = let more = strlen_loop s (n + 1) in if c == 0 then n else more

unfoldable pub strlen_k : CharPtr → ℕ
unfolding strlen_loop
strlen_k none = 0
strlen_k (some s) = strlen_loop s 0

-- The loop `while (i < n - 1 && src[i])` of `strncpy_k` with `n - 1 - i` rounds left, and the
-- terminator written at the index where it stops.
unfoldable pub strncpy_loop : ℕ → List ℕ → List ℕ → List ℕ
strncpy_loop n [] src = []
strncpy_loop zero (d ∷ dst) src = 0 ∷ dst
strncpy_loop (suc n) (d ∷ dst) [] = 0 ∷ dst
strncpy_loop (suc n) (d ∷ dst) (c ∷ src) =
    let more = c ∷ strncpy_loop n dst src in if c == 0 then 0 ∷ dst else more

-- `strncpy_k(dst, src, n)`: what `dst` holds after it. No caller passes a NULL `dst`.
unfoldable pub strncpy_k : List ℕ → CharPtr → ℕ → List ℕ
unfolding strncpy_loop
strncpy_k dst none n = strncpy_loop 0 dst []
strncpy_k dst (some src) n = strncpy_loop (n - 1) dst src

-- The loop of `strncmp_k`.
unfoldable pub strncmp_loop : ℕ → List ℕ → List ℕ → ℤ
strncmp_loop zero a b = pos 0
strncmp_loop (suc n) a b =
    let more = strncmp_loop n (rest a) (rest b) in
    if first a == first b then (if first a == 0 then pos 0 else more) else sub_ℕ (first a) (first b)

-- `(a == b) ? 0 : -1` is reached where one of the two is NULL: they are equal when both are.
unfoldable pub strncmp_k : CharPtr → CharPtr → ℕ → ℤ
unfolding strncmp_loop
strncmp_k none none n = pos 0
strncmp_k none (some b) n = negsuc 0
strncmp_k (some a) none n = negsuc 0
strncmp_k (some a) (some b) n = strncmp_loop n a b

-- `x == 0` for the result of `strncmp_k`.
abbrev pub is_zero : ℤ → Bool
is_zero (pos zero) = true
is_zero (pos (suc n)) = false
is_zero (negsuc n) = false

-- `strncmp_k(a, b, n) == 0`, the test that every table of the kernel uses.
unfoldable pub same_name : ℕ → List ℕ → CharPtr → Bool
unfolding strncmp_k
same_name n a b = is_zero (strncmp_k (some a) b n)
