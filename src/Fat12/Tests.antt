-- ===== src/Fat12/Tests.antt =====
-- A FAT at format time and the theorems at it.
use new_attempt.Base.{All, All-replicate, List, arith, refl, replicate, ℕ, ◌∷◌, ◌≡◌, ◌≢◌}
use new_attempt.Fat12.{
  fat12_set_cluster, fat83_loop, alloc_loop, fat12_next_cluster, name_to_fat83, fat12_alloc_cluster,
}
use new_attempt.Fat12.Entry.{IsByte}
use new_attempt.Fat12.Alloc.{fat12_alloc_cluster-fresh}
use new_attempt.CString.{codes}

-- The media descriptor, an end-of-chain mark, and free clusters from 2 on.
abbrev fresh : List ℕ
fresh = 0xF0 ∷ 0xFF ∷ 0xFF ∷ replicate 4605 0

first_cluster : fat12_alloc_cluster fresh ≡ 2
unfolding fat12_alloc_cluster alloc_loop fat12_next_cluster
first_cluster = refl

fresh_bytes : All IsByte fresh
fresh_bytes = (omega arith, (omega arith, (omega arith, All-replicate IsByte 4605 0 (omega arith))))

env_name : name_to_fat83 (codes "Aios.env") ≡ codes "AIOS    ENV"
unfolding name_to_fat83 fat83_loop
env_name = refl

fat12_alloc_cluster-fresh_example :
    (fat12_alloc_cluster (fat12_set_cluster fresh (fat12_alloc_cluster fresh) 0xFFF)
      ≢ fat12_alloc_cluster fresh)
    × (fat12_next_cluster (fat12_set_cluster fresh (fat12_alloc_cluster fresh) 0xFFF) 1
        ≡ fat12_next_cluster fresh 1)
fat12_alloc_cluster-fresh_example =
    fat12_alloc_cluster-fresh fresh 1 refl fresh_bytes (omega (arith, first_cluster))
      (omega (arith, first_cluster))
