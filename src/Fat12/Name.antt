-- ===== src/Fat12/Name.antt =====
-- 8.3 names in env/fat12.c.
use new_attempt.Base.{List, [], arith, length, length-set, refl, replicate, set, ℕ, ◌+◌, ◌∷◌, ◌≡◌}
use new_attempt.Fat12.{upper, name_to_fat83, fat83_loop}

-- A name takes 11 bytes, whatever the string: no byte of `dst` past its end is written.
fat83_loop-length :
    (src : List ℕ) (di : ℕ) (dst : List ℕ) → length (fat83_loop src di dst) ≡ length dst
unfolding fat83_loop
fat83_loop-length [] di dst = refl
fat83_loop-length (c ∷ src) di dst = ground (
  arith,
  fat83_loop-length src 8 dst,
  fat83_loop-length src (di + 1) (set dst di (upper c)),
  length-set dst di (upper c),
)

pub length-name_to_fat83 : (src : List ℕ) → length (name_to_fat83 src) ≡ 11
unfolding name_to_fat83
length-name_to_fat83 src = fat83_loop-length src 0 (replicate 11 b' ')
