-- ===== src/Fat12/Alloc.antt =====
-- The search for a free cluster in env/fat12.c.
use new_attempt.Base.{
  All, Bool-cases, List, ap, arith, inl, inr, length, refl, suc, zero, ℕ, ◌+◌, ◌<◌, ◌==◌, ◌≡◌, ◌≢◌,
  ◌≤◌, ◌⊎◌,
}
use new_attempt.Fat12.{
  fat12_set_cluster, fat12_next_cluster, fat_bytes, fat12_alloc_cluster, alloc_loop,
}
use new_attempt.Fat12.Entry.{next-set_ne, next-set_self, IsByte}

-- The loop stops at a free entry not after a given one.
alloc_loop-le :
    (fat : List ℕ) (n c i : ℕ)
    → c ≤ i
    → i < c + n
    → 0 < c
    → fat12_next_cluster fat i ≡ 0
    → (fat12_next_cluster fat (alloc_loop fat n c) ≡ 0)
      × (c ≤ alloc_loop fat n c)
      × (alloc_loop fat n c ≤ i)
unfolding alloc_loop
alloc_loop-le fat zero c i lo hi pos h = absurd (omega arith)
alloc_loop-le fat (suc n) c i lo hi pos h = elim (Bool-cases (fat12_next_cluster fat c == 0)) [
  | inl here ↦ ground arith
  | inr later ↦
      ground (arith, alloc_loop-le fat n (c + 1) i (ground arith) (omega arith) (omega arith) h)
]

-- Where a cluster from 2 to 2847 is free, the least free one is returned.
pub fat12_alloc_cluster-le :
    (fat : List ℕ) (i : ℕ)
    → 2 ≤ i
    → i < 2848
    → fat12_next_cluster fat i ≡ 0
    → (fat12_next_cluster fat (fat12_alloc_cluster fat) ≡ 0)
      × (2 ≤ fat12_alloc_cluster fat)
      × (fat12_alloc_cluster fat ≤ i)
unfolding fat12_alloc_cluster
fat12_alloc_cluster-le fat i lo hi h = alloc_loop-le fat 2846 2 i lo (omega arith) (omega arith) h

-- The cluster returned is 0 or a free data cluster.
alloc_loop_cases :
    (fat : List ℕ) (n c : ℕ)
    → (alloc_loop fat n c ≡ 0)
      ⊎ ((fat12_next_cluster fat (alloc_loop fat n c) ≡ 0) × (alloc_loop fat n c < c + n))
unfolding alloc_loop
alloc_loop_cases fat zero c = inl refl
alloc_loop_cases fat (suc n) c = ground (arith, alloc_loop_cases fat n (c + 1))

pub fat12_alloc_cluster_cases :
    (fat : List ℕ)
    → (fat12_alloc_cluster fat ≡ 0)
      ⊎ ((fat12_next_cluster fat (fat12_alloc_cluster fat) ≡ 0) × (fat12_alloc_cluster fat < 2848))
unfolding fat12_alloc_cluster
fat12_alloc_cluster_cases fat = alloc_loop_cases fat 2846 2

alloc_loop-ge : (fat : List ℕ) (n c : ℕ) → (alloc_loop fat n c ≡ 0) ⊎ (c ≤ alloc_loop fat n c)
unfolding alloc_loop
alloc_loop-ge fat zero c = inl refl
alloc_loop-ge fat (suc n) c = ground (arith, alloc_loop-ge fat n (c + 1))

-- A cluster that is returned is a data cluster.
pub fat12_alloc_cluster_range :
    (fat : List ℕ)
    → fat12_alloc_cluster fat ≢ 0
    → (2 ≤ fat12_alloc_cluster fat) × (fat12_alloc_cluster fat < 2848)
unfolding fat12_alloc_cluster
fat12_alloc_cluster_range fat h =
    ground (arith, alloc_loop-ge fat 2846 2, fat12_alloc_cluster_cases fat)

-- The FAT with the cluster returned marked as an end of chain.
abbrev marked : List ℕ → List ℕ
marked fat = fat12_set_cluster fat (fat12_alloc_cluster fat) 0xFFF

-- In a FAT of 9 sectors of bytes, the cluster that `fat12_alloc_cluster` returns, marked as an end of
-- chain, is not returned again, and every other entry stays as it was.
pub fat12_alloc_cluster-fresh :
    (fat : List ℕ) (d : ℕ)
    → length fat ≡ fat_bytes
    → All IsByte fat
    → fat12_alloc_cluster fat ≢ 0
    → d ≢ fat12_alloc_cluster fat
    → (fat12_alloc_cluster (marked fat) ≢ fat12_alloc_cluster fat)
      × (fat12_next_cluster (marked fat) d ≡ fat12_next_cluster fat d)
fat12_alloc_cluster-fresh fat d size bytes found ne = (
  λ same. absurd (
      omega (
        arith,
        ap (fat12_next_cluster (marked fat)) same,
        full,
        zero_at (fat12_alloc_cluster_cases (marked fat)) same,
      )),
  next-set_ne fat (fat12_alloc_cluster fat) 0xFFF size bytes d ne,
)
  where
    full : fat12_next_cluster (marked fat) (fat12_alloc_cluster fat) ≡ 0xFFF
    full =
        next-set_self fat (fat12_alloc_cluster fat) 0xFFF size bytes
          (ground (arith, fat12_alloc_cluster_cases fat)) (omega arith)

    zero_at :
        (fat12_alloc_cluster (marked fat) ≡ 0)
          ⊎ ((fat12_next_cluster (marked fat) (fat12_alloc_cluster (marked fat)) ≡ 0)
              × (fat12_alloc_cluster (marked fat) < 2848))
        → fat12_alloc_cluster (marked fat) ≡ fat12_alloc_cluster fat
        → fat12_next_cluster (marked fat) (fat12_alloc_cluster (marked fat)) ≡ 0
    zero_at (inl none_left) same = absurd (found (omega (arith, same, none_left)))
    zero_at (inr h) same = h.0
