-- ===== src/Fat12/Stored.antt =====
-- What env/fat12.c stores are bytes: the sector of a file and the entry of the directory.
use new_attempt.Base.{
  All-append, Bool, true, false, All, All-replicate, All-set, List, arith, replicate, set, take, ℕ,
  ◌++◌, ◌+◌, ◌%◌, ◌/◌, ◌-◌, ◌==◌, ◌∷◌, [], put_at, overwrite, zero, suc, leb, ◌||◌, if◌then◌else◌,
}
use new_attempt.Fat12.{upper, name_to_fat83, fat83_loop, dirent_bytes, bytes_per_sector}
use new_attempt.Fat12.Working.{Byte}

All-take : (n : ℕ) (xs : List ℕ) → All Byte xs → All Byte (take n xs)
All-take zero xs v = tt
All-take (suc n) [] v = tt
All-take (suc n) (x ∷ xs) v = (v.0, All-take n xs v.1)

All-overwrite : (xs part : List ℕ) → All Byte xs → All Byte part → All Byte (overwrite xs part)
unfolding overwrite
All-overwrite xs [] v w = v
All-overwrite [] (p ∷ part) v w = tt
All-overwrite (x ∷ xs) (p ∷ part) v w = (w.0, All-overwrite xs part v.1 w.1)

pub All-put_at :
    (xs : List ℕ) (off : ℕ) (part : List ℕ)
    → All Byte xs
    → All Byte part
    → All Byte (put_at xs off part)
unfolding put_at
All-put_at xs zero part v w = All-overwrite xs part v w
All-put_at [] (suc off) part v w = tt
All-put_at (x ∷ xs) (suc off) part v w = (v.0, All-put_at xs off part v.1 w)

pub All-dirent_bytes :
    (fat83 : List ℕ) (cluster len : ℕ) → All Byte fat83 → All Byte (dirent_bytes fat83 cluster len)
unfolding dirent_bytes
All-dirent_bytes fat83 cluster len v =
    let numbers =
      cluster % 0x100
      ∷ cluster / 0x100 % 0x100
      ∷ len % 0x100
      ∷ len / 0x100 % 0x100
      ∷ len / 0x10000 % 0x100
      ∷ len / 0x1000000 % 0x100
      ∷ [] in
    let small : All Byte numbers = omega arith in
    let zeros = All-replicate Byte 14 0 (omega arith) in
    All-append Byte fat83 (0x20 ∷ (replicate 14 0 ++ numbers)) v
      (omega arith, All-append Byte (replicate 14 0) numbers zeros small)

pub All-sector :
    (buf : List ℕ) (len : ℕ)
    → All Byte buf
    → All Byte (take len buf ++ replicate (bytes_per_sector - len) 0)
All-sector buf len v =
    All-append Byte (take len buf) _ (All-take len buf v)
      (All-replicate Byte (bytes_per_sector - len) 0 (omega arith))

if_All : (b : Bool) (xs ys : List ℕ) → All Byte xs → All Byte ys → All Byte (if b then xs else ys)
if_All true xs ys v w = v
if_All false xs ys v w = w

All-fat83_loop :
    (src : List ℕ) (di : ℕ) (dst : List ℕ)
    → All Byte src
    → All Byte dst
    → All Byte (fat83_loop src di dst)
unfolding fat83_loop
All-fat83_loop [] di dst v w = w
All-fat83_loop (c ∷ src) di dst v w =
    let small : Byte (upper c) = ground (arith, v.0) in
    if_All (c == 0 || leb 11 di) _ _ w (
      if_All (c == b'.') _ _ (All-fat83_loop src 8 dst v.1 w) (
        All-fat83_loop src (di + 1) (set dst di (upper c)) v.1
          (All-set Byte dst di (upper c) w small)))

pub All-name_to_fat83 : (src : List ℕ) → All Byte src → All Byte (name_to_fat83 src)
unfolding name_to_fat83
All-name_to_fat83 src v =
    All-fat83_loop src 0 (replicate 11 b' ') v (All-replicate Byte 11 b' ' (omega arith))
