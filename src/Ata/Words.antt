-- ===== src/Ata/Words.antt =====
-- Buffers of bytes as the 16-bit words of adapters/ata.c.
use new_attempt.Base.{
  take-drop-put_at, length-put_at, ◌<◌, take-all, All, sym, ◌∙◌, arith, refl, ◌*◌, ◌/◌, zero, ap,
  ◌+◌, ◌%◌, ◌≡◌, ◌++◌, length, put_at, overwrite,
}
use new_attempt.Ata.{sector_size, suc, [], ◌∷◌, ℕ, List, word_at}
use mathlib.Core.Path.{ap₂}

-- The bytes of a list of words.
unfoldable pub bytes_of : List ℕ → List ℕ
bytes_of [] = []
bytes_of (w ∷ ws) = w % 0x100 ∷ w / 0x100 % 0x100 ∷ bytes_of ws

-- The `n` words of a buffer from an offset on.
unfoldable pub words_at : List ℕ → ℕ → ℕ → List ℕ
words_at buf off zero = []
words_at buf off (suc n) = word_at buf off ∷ words_at buf (off + 2) n

pub length-bytes_of : (ws : List ℕ) → length (bytes_of ws) ≡ length ws * 2
unfolding bytes_of
length-bytes_of [] = refl
length-bytes_of (w ∷ ws) = omega (arith, length-bytes_of ws)

pub length-words_at : (buf : List ℕ) (off n : ℕ) → length (words_at buf off n) ≡ n
unfolding words_at
length-words_at buf off zero = refl
length-words_at buf off (suc n) = ap suc (length-words_at buf (off + 2) n)

pub bytes_of-append : (us ws : List ℕ) → bytes_of (us ++ ws) ≡ bytes_of us ++ bytes_of ws
unfolding bytes_of
bytes_of-append [] ws = refl
bytes_of-append (u ∷ us) ws =
    ap (λ (t : List ℕ). u % 0x100 ∷ u / 0x100 % 0x100 ∷ t) (bytes_of-append us ws)

overwrite-nil : (n : ℕ) (ys : List ℕ) → overwrite [] ys ≡ []
unfolding overwrite
overwrite-nil n [] = refl
overwrite-nil n (y ∷ ys) = refl

put_at-nil : (n : ℕ) (ys : List ℕ) → put_at [] n ys ≡ []
unfolding put_at
put_at-nil zero ys = overwrite-nil 0 ys
put_at-nil (suc n) ys = refl

put_at-overwrite :
    (buf xs ys : List ℕ) → put_at (overwrite buf xs) (length xs) ys ≡ overwrite buf (xs ++ ys)
unfolding put_at overwrite
put_at-overwrite buf [] ys = refl
put_at-overwrite [] (x ∷ xs) ys = refl
put_at-overwrite (b ∷ buf) (x ∷ xs) ys = ap (λ t. x ∷ t) (put_at-overwrite buf xs ys)

-- A part written behind another is one part.
pub put_at-put_at :
    (buf : List ℕ) (off : ℕ) (xs ys : List ℕ)
    → put_at (put_at buf off xs) (off + length xs) ys ≡ put_at buf off (xs ++ ys)
unfolding put_at overwrite
put_at-put_at buf zero xs ys =
    ap (λ k. put_at (overwrite buf xs) k ys) (omega arith) ∙ put_at-overwrite buf xs ys
put_at-put_at [] (suc off) xs ys = put_at-nil (suc off + length xs) ys
put_at-put_at (b ∷ buf) (suc off) xs ys =
    ap (λ k. put_at (b ∷ put_at buf off xs) k ys) (suc_add off (length xs))
    ∙ ap (λ t. b ∷ t) (put_at-put_at buf off xs ys)
  where
    suc_add : (m n : ℕ) → suc m + n ≡ suc (m + n)
    suc_add m n = omega arith

pub put_at-empty : (buf : List ℕ) (off : ℕ) → put_at buf off [] ≡ buf
unfolding put_at overwrite
put_at-empty buf zero = refl
put_at-empty [] (suc off) = refl
put_at-empty (b ∷ buf) (suc off) = ap (λ t. b ∷ t) (put_at-empty buf off)

-- The words of a sector and those behind it.
pub put_at-sector :
    (buf : List ℕ) (s : ℕ) (ws vs : List ℕ)
    → length ws ≡ 256
    → put_at (put_at buf (s * sector_size) (bytes_of ws)) ((s + 1) * sector_size) (bytes_of vs)
      ≡ put_at buf (s * sector_size) (bytes_of (ws ++ vs))
put_at-sector buf s ws vs h =
    ap (λ k. put_at (put_at buf (s * sector_size) (bytes_of ws)) k (bytes_of vs))
      (omega (arith, length-bytes_of ws))
    ∙ put_at-put_at buf (s * sector_size) (bytes_of ws) (bytes_of vs)
    ∙ ap (put_at buf (s * sector_size)) (sym (bytes_of-append ws vs))

words_at-skip :
    (a b : ℕ) (buf : List ℕ) (off n : ℕ) → words_at (a ∷ b ∷ buf) (off + 2) n ≡ words_at buf off n
unfolding words_at
words_at-skip a b buf off zero = refl
words_at-skip a b buf off (suc n) =
    ap₂ (λ (w : ℕ) (ws : List ℕ). w ∷ ws) (rw (two_on off, next off) refl)
      (words_at-skip a b buf (off + 2) n)
  where
    two_on : (k : ℕ) → k + 2 ≡ suc (suc k)
    two_on k = omega arith

    next : (k : ℕ) → suc (suc k) + 1 ≡ suc (suc (k + 1))
    next k = omega arith

-- A buffer of whole words is the bytes of its words.
pub bytes_of-words_at :
    (n : ℕ) (buf : List ℕ)
    → length buf ≡ n * 2
    → All (λ b. b < 0x100) buf
    → bytes_of (words_at buf 0 n) ≡ buf
unfolding bytes_of words_at
bytes_of-words_at zero [] size low = refl
bytes_of-words_at zero (a ∷ buf) size low = absurd (omega arith)
bytes_of-words_at (suc n) [] size low = absurd (omega arith)
bytes_of-words_at (suc n) (a ∷ []) size low = absurd (omega arith)
bytes_of-words_at (suc n) (a ∷ b ∷ buf) size (low_a, (low_b, low)) =
    ap₂ (λ (x : ℕ) (t : List ℕ). x ∷ t) (omega arith)
      (ap₂ (λ (x : ℕ) (t : List ℕ). x ∷ t) (omega arith)
        (ap bytes_of (words_at-skip a b buf 0 n) ∙ bytes_of-words_at n buf (omega arith) low))

-- A part as long as the buffer replaces it.
pub put_at-all : (buf part : List ℕ) → length part ≡ length buf → put_at buf 0 part ≡ part
put_at-all buf part h =
    sym (take-all (length part) (put_at buf 0 part) (omega (arith, length-put_at buf 0 part)))
    ∙ take-drop-put_at buf 0 part (omega arith)
