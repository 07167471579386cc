-- ===== src/Fat12/Place.antt =====
-- Where `fat12_write_file` of env/fat12.c puts a file: the directory entry and the cluster.
use new_attempt.Base.{
  ==-ne, ==-refl, Bool, Bool-cases, List, Option, [], ap, arith, false, if◌then◌else◌, inl, inr,
  length, none, not, refl, replicate, some, suc, sym, take, true, zero, ℕ, ◌++◌, ◌<◌, ◌==◌, ◌||◌,
  ◌∷◌, ◌≡◌, ◌≢◌, ◌≤◌, ◌⊎◌,
}
use new_attempt.Fat12.{fat12_alloc_cluster, root_entry_count, DirEntry, same_bytes}
use new_attempt.Fat12.Volume.{Search, choose_cluster}
use new_attempt.Fat12.Search.{scan_found, scan-target, Passes, scan, passed, target}
use new_attempt.CString.{first}
use new_attempt.Fat12.Working.{dir_of}
use new_attempt.Fat12.Alloc.{fat12_alloc_cluster_range}
use new_attempt.Fat12.Dirent.{file_entry}

same_bytes_refl : (xs : List ℕ) → same_bytes xs xs ≡ true
same_bytes_refl [] = refl
same_bytes_refl (x ∷ xs) = rw (==-refl x) (same_bytes_refl xs)

pub take-sector_of :
    (j k : ℕ) (buf : List ℕ) (n : ℕ)
    → j ≤ k
    → k ≤ length buf
    → take j (take k buf ++ replicate n 0) ≡ take j buf
take-sector_of zero k buf n h l = refl
take-sector_of (suc j) zero buf n h l = absurd (omega arith)
take-sector_of (suc j) (suc k) [] n h l = absurd (omega arith)
take-sector_of (suc j) (suc k) (b ∷ buf) n h l =
    ap (λ t. b ∷ t) (take-sector_of j k buf n (omega arith) (omega arith))

pub guarded {ℓ} :
    {A : Type ℓ} (b c : Bool) (x y : A) → b ≡ true → c ≡ false → (if not b || c then x else y) ≡ y
guarded true c x y h k = rw k refl
guarded false c x y h k = cc

pub file_entry_found :
    (fat83 : List ℕ) (c k : ℕ) → first fat83 ≢ 0xE5 → passed fat83 (file_entry fat83 c k) ≡ false
unfolding passed
file_entry_found fat83 c k h = rw (==-ne _ 0xE5 h, same_bytes_refl fat83) refl

-- The first cluster of every file of the directory is a data cluster of the volume.
unfoldable pub ClustersValid : (ℕ → DirEntry) → List ℕ → Type 0
ClustersValid dir fat83 =
    (i : ℕ)
    → i < root_entry_count
    → first (dir i).name ≢ 0
    → passed fat83 (dir i) ≡ false
    → (2 ≤ (dir i).cluster) × ((dir i).cluster < 2849)

-- The entry and the cluster for a name, on the sectors and with the FAT; `none` where the name is new
-- and the directory has no free entry or the FAT no free cluster.
abbrev pub place_for : (ℕ → List ℕ) → List ℕ → List ℕ → Option (ℕ × ℕ)
place_for c fat fat83 = choose_cluster fat (scan (dir_of c) fat83 root_entry_count 0 none)

pair_eq :
    {a b e c : ℕ}
    → ◌≡◌ {A = Option (ℕ × ℕ)} (some (a, b)) (some (e, c))
    → (some a ≡ some e) × (b ≡ c)
pair_eq h = (cc, cc)

no_pair : {e c : ℕ} → ◌≡◌ {A = Option (ℕ × ℕ)} none (some (e, c)) → ⊥
no_pair h = cc

chosen :
    (fat : List ℕ) (found : Option (ℕ × ℕ)) (free : Option ℕ) (e c : ℕ)
    → choose_cluster fat (record { found = found; free_entry = free }) ≡ some (e, c)
    → (target (record { found = found; free_entry = free }) ≡ some e)
      × ((found ≡ some (e, c)) ⊎ ((c ≡ fat12_alloc_cluster fat) × (fat12_alloc_cluster fat ≢ 0)))
unfolding choose_cluster target
chosen fat (some (a, b)) free e c h = ((pair_eq h).0, inl h)
chosen fat none none e c h = absurd (no_pair h)
chosen fat none (some f) e c h = elim (Bool-cases (fat12_alloc_cluster fat == 0)) [
  | inl full ↦ absurd (no_pair (rw full at h))
  | inr room ↦
      let (entry, cluster) = pair_eq (rw room at h) in (entry, inr (sym cluster, ground arith))
]

-- The entry and the cluster chosen.
choose_cluster-target :
    (fat : List ℕ) (r : Search) (e c : ℕ)
    → choose_cluster fat r ≡ some (e, c)
    → (target r ≡ some e)
      × ((r.found ≡ some (e, c)) ⊎ ((c ≡ fat12_alloc_cluster fat) × (fat12_alloc_cluster fat ≢ 0)))
unfolding choose_cluster target
choose_cluster-target fat r e c h = chosen fat r.found r.free_entry e c h

no_free : {e : ℕ} → ◌≡◌ {A = Option ℕ} none (some e) → ⊥
no_free h = cc

-- The entry and the cluster that are written are in range.
pub place_range :
    (dir : ℕ → DirEntry) (fat fat83 : List ℕ) (e c : ℕ)
    → ClustersValid dir fat83
    → choose_cluster fat (scan dir fat83 root_entry_count 0 none) ≡ some (e, c)
    → (e < root_entry_count) × (2 ≤ c) × (c < 2849) × Passes dir fat83 0 e
unfolding ClustersValid
place_range dir fat fat83 e c valid h =
    let (goal, source) = choose_cluster-target fat (scan dir fat83 root_entry_count 0 none) e c h in
    elim (scan-target dir fat83 root_entry_count 0 none e goal) [
      | inl known ↦ absurd (no_free known)
      | inr (lo, hi, before) ↦ elim source [
        | inl found ↦
            let (lt, cluster, used, hit) = scan_found dir fat83 root_entry_count 0 none e c found in
            (
              omega (arith, hi),
              omega (arith, cluster, (valid e (omega (arith, hi)) used hit).0),
              omega (arith, cluster, (valid e (omega (arith, hi)) used hit).1),
              before,
            )
        | inr (new, some_left) ↦
            let (at_least_2, below) = fat12_alloc_cluster_range fat some_left in
            (omega (arith, hi), omega (arith, new, at_least_2), omega (arith, new, below), before)
      ]
    ]
