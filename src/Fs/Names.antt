-- ===== src/Fs/Names.antt =====
-- The table as a map from names: what `fs_create` and `fs_delete` do to `fs_find`.
use new_attempt.Base.{
  find_index-none_of_count, inl, refl, inr, count-set, if◌then◌else◌, find_index-none,
  find_index_lt, ◌∙◌, ◌+◌, find_index-set_new, find_index-set_same, ◌<◌, find_index_holds, length,
  Option-cases, ℕ, ◌≤◌, ◌≡◌, true, false, none, some, List, arith, set, find_index, count,
}
use new_attempt.Base.Int.{negsuc, pos}
use new_attempt.CString.{cstr, strncpy_k, CharPtr, same_name}
use new_attempt.Fs.{
  deleted, fs_delete, blank_node, FsNode, NodeType, FsTable, name_len, node_at, hit, free, fs_find,
  created, fs_create,
}
use new_attempt.Fs.Valid.{node_at-NodeValid, IsValid}
use mathlib.Core.Path.{sym, fun_ext}
use new_attempt.CString.Compare.{
  same_name_iff, same_name-strncpy_k, same_name_congr, same_name-strncpy_k_long, same_name_same,
}

-- Two names that no table of nodes tells apart.
abbrev pub SameName : List ℕ → List ℕ → Type 0
SameName a b = same_name name_len a (some b) ≡ true

-- At most one node answers to each name.
abbrev pub Unique : FsTable → Type 0
Unique t = (name : List ℕ) → count (hit (some name)) t ≤ 1

hit-free : (name : CharPtr) (n : FsNode) → free n ≡ true → hit name n ≡ false
unfolding hit free
hit-free name n h = ground arith

-- The slot that `fs_create` takes is in range and was free.
module _ (t : FsTable) (s : List ℕ) (type : NodeType) (i : ℕ) (absent : fs_find t (some s) ≡ none)
    (slot : find_index free t ≡ some i) where
  fs_create-eq : fs_create t (some s) type ≡ (pos 0, set t i (created (node_at t i) (some s) type))
  unfolding fs_create
  fs_create-eq = rw (absent, fs_create, slot)

  module _ (v : IsValid t) where
    room : name_len ≤ length (node_at t i).name
    room = omega (arith, (node_at-NodeValid t i v).name_size)

    hit-created_short :
        length (cstr s) < name_len
        → (q : List ℕ)
        → hit (some q) (created (node_at t i) (some s) type) ≡ same_name name_len s (some q)
    unfolding hit created
    hit-created_short short q =
        same_name_congr name_len (strncpy_k (node_at t i).name (some s) name_len) s q
          (same_name-strncpy_k name_len (node_at t i).name s (omega arith) room short)

    hit-created_long :
        name_len ≤ length (cstr s) → hit (some s) (created (node_at t i) (some s) type) ≡ false
    unfolding hit created
    hit-created_long long =
        same_name-strncpy_k_long name_len (node_at t i).name s (omega arith) room long

    free_before : (q : List ℕ) → hit (some q) (node_at t i) ≡ false
    free_before q = hit-free (some q) (node_at t i) (find_index_holds free t i blank_node slot)

    find-created_same :
        length (cstr s) < name_len
        → fs_find (set t i (created (node_at t i) (some s) type)) (some s) ≡ some i
    unfolding fs_find
    find-created_same short =
        find_index-set_new (hit (some s)) t i _
          (hit-created_short short s ∙ (same_name_iff name_len s s).1 refl) absent
          (find_index_lt free t i slot)

    find-created_other :
        (q : List ℕ)
        → length (cstr s) < name_len
        → same_name name_len s (some q) ≡ false
        → fs_find (set t i (created (node_at t i) (some s) type)) (some q) ≡ fs_find t (some q)
    unfolding fs_find
    find-created_other q short ne =
        find_index-set_same (hit (some q)) t i _ blank_node
          (hit-created_short short q ∙ ne ∙ sym (free_before q))

    find-created_long :
        name_len ≤ length (cstr s)
        → fs_find (set t i (created (node_at t i) (some s) type)) (some s) ≡ none
    unfolding fs_find
    find-created_long long =
        find_index-set_same (hit (some s)) t i _ blank_node
          (hit-created_long long ∙ sym (free_before s))
        ∙ absent

    count-created :
        length (cstr s) < name_len
        → (q : List ℕ)
        → count (hit (some q)) (set t i (created (node_at t i) (some s) type))
          ≡ count (hit (some q)) t + (if same_name name_len s (some q) then 1 else 0)
    count-created short q = ground (
      arith,
      count-set (hit (some q)) t i (created (node_at t i) (some s) type) blank_node
          (find_index_lt free t i slot),
      free_before q,
      hit-created_short short q,
    )

-- `hit` asks the same of every node for two names that agree.
hit_congr : (s q : List ℕ) → SameName s q → hit (some q) ≡ hit (some s)
unfolding hit
hit_congr s q h = fun_ext λ n. ground (arith, same_name_same name_len n.name s q h)

module _ (t : FsTable) (s : List ℕ) (type : NodeType) where
  fs_create-found :
      (i : ℕ) → fs_find t (some s) ≡ some i → fs_create t (some s) type ≡ (negsuc 0, t)
  unfolding fs_create
  fs_create-found i e = rw (e, fs_create)

  fs_create-full :
      fs_find t (some s) ≡ none
      → find_index free t ≡ none
      → fs_create t (some s) type ≡ (negsuc 0, t)
  unfolding fs_create
  fs_create-full e f = rw (e, fs_create, f)

-- What a successful `fs_create` found.
fs_create-ok :
    (t : FsTable) (s : List ℕ) (type : NodeType)
    → (fs_create t (some s) type).0 ≡ pos 0
    → (i : ℕ) × (fs_find t (some s) ≡ none) × (find_index free t ≡ some i)
unfolding fs_create
fs_create-ok t s type h = elim (Option-cases (find_index free t)) [
  | inr (i, f) ↦ (i, ground (arith, Option-cases (fs_find t (some s))), f)
  | inl f ↦ absurd (ground (arith, Option-cases (fs_find t (some s))))
]

fs_find-fs_create_all :
    (t : FsTable) (s : List ℕ) (type : NodeType)
    → IsValid t
    → length (cstr s) < name_len
    → (fs_create t (some s) type).0 ≡ pos 0
    → (i : ℕ) × (free (node_at t i) ≡ true)
      × (fs_find (fs_create t (some s) type).1 (some s) ≡ some i)
      × ((q : List ℕ)
          → same_name name_len s (some q) ≡ false
          → fs_find (fs_create t (some s) type).1 (some q) ≡ fs_find t (some q))
fs_find-fs_create_all t s type v short h =
    let (i, absent, slot) = fs_create-ok t s type h in
    rw (fs_create-eq t s type i absent slot) (
      i,
      find_index_holds free t i blank_node slot,
      find-created_same t s type i absent slot v short,
      λ q ne. find-created_other t s type i absent slot v q short ne,
    )

-- A node that `fs_create` reports as created under a name of fewer than 24 bytes is found again
-- under that name, in a slot that was free, and every other name is found where it was before.
pub fs_find-fs_create :
    (t : FsTable) (s : List ℕ) (type : NodeType) (q : List ℕ)
    → IsValid t
    → length (cstr s) < name_len
    → (fs_create t (some s) type).0 ≡ pos 0
    → same_name name_len s (some q) ≡ false
    → (i : ℕ) × (free (node_at t i) ≡ true)
      × (fs_find (fs_create t (some s) type).1 (some s) ≡ some i)
      × (fs_find (fs_create t (some s) type).1 (some q) ≡ fs_find t (some q))
fs_find-fs_create t s type q v short h ne =
    let (i, was_free, here, others) = fs_find-fs_create_all t s type v short h in
    (i, was_free, here, others q ne)

-- A node that `fs_create` reports as created under a name of 24 bytes or more is not found under
-- that name.
pub fs_find-fs_create_long :
    (t : FsTable) (s : List ℕ) (type : NodeType)
    → IsValid t
    → name_len ≤ length (cstr s)
    → (fs_create t (some s) type).0 ≡ pos 0
    → fs_find (fs_create t (some s) type).1 (some s) ≡ none
fs_find-fs_create_long t s type v long h =
    let (i, absent, slot) = fs_create-ok t s type h in
    rw (fs_create-eq t s type i absent slot) (find-created_long t s type i absent slot v long)

-- `fs_create` keeps names unique, if the name has fewer than 24 bytes.
pub fs_create-Unique :
    (t : FsTable) (s : List ℕ) (type : NodeType)
    → IsValid t
    → length (cstr s) < name_len
    → Unique t
    → Unique (fs_create t (some s) type).1
unfolding fs_find
fs_create-Unique t s type v short u q = elim (Option-cases (fs_find t (some s))) [
  | inr (i, e) ↦ rw (fs_create-found t s type i e) (u q)
  | inl absent ↦ elim (Option-cases (find_index free t)) [
    | inl e ↦ rw (fs_create-full t s type absent e) (u q)
    | inr (i, slot) ↦
        rw (fs_create-eq t s type i absent slot)
          (ground (arith, count-created t s type i absent slot v short q, u q, fresh))
  ]
]
  where
    fresh :
        (fs_find t (some s) ≡ none)
        → same_name name_len s (some q) ≡ true
        → count (hit (some q)) t ≡ 0
    fresh e h = rw (hit_congr s q h) (find_index-none (hit (some s)) t e)

module _ (t : FsTable) (s : List ℕ) where
  fs_delete-eq :
      (i : ℕ)
      → fs_find t (some s) ≡ some i
      → fs_delete t (some s) ≡ (pos 0, set t i (deleted (node_at t i)))
  unfolding fs_delete
  fs_delete-eq i e = rw (e, fs_delete)

  hit-deleted : (q : List ℕ) (i : ℕ) → hit (some q) (deleted (node_at t i)) ≡ false
  unfolding hit deleted
  hit-deleted q i = refl

  count-deleted :
      (q : List ℕ) (i : ℕ)
      → fs_find t (some s) ≡ some i
      → count (hit (some q)) (set t i (deleted (node_at t i)))
          + (if hit (some q) (node_at t i) then 1 else 0)
        ≡ count (hit (some q)) t
  unfolding fs_find
  count-deleted q i e = ground (
    arith,
    count-set (hit (some q)) t i (deleted (node_at t i)) blank_node
        (find_index_lt (hit (some s)) t i e),
    hit-deleted q i,
  )

  node-hit : (i : ℕ) → fs_find t (some s) ≡ some i → hit (some s) (node_at t i) ≡ true
  unfolding fs_find
  node-hit i e = find_index_holds (hit (some s)) t i blank_node e

  hit-other :
      (q : List ℕ) (i : ℕ)
      → fs_find t (some s) ≡ some i
      → same_name name_len s (some q) ≡ false
      → hit (some q) (node_at t i) ≡ false
  unfolding hit
  hit-other q i e ne = ground (arith, node-hit i e, same_name_congr name_len (node_at t i).name s q)

fs_find-fs_delete_all :
    (t : FsTable) (s : List ℕ) (i : ℕ)
    → Unique t
    → fs_find t (some s) ≡ some i
    → (fs_find (fs_delete t (some s)).1 (some s) ≡ none)
      × ((q : List ℕ)
          → same_name name_len s (some q) ≡ false
          → fs_find (fs_delete t (some s)).1 (some q) ≡ fs_find t (some q))
      × Unique (fs_delete t (some s)).1
unfolding fs_find
fs_find-fs_delete_all t s i u e = rw (fs_delete-eq t s i e) (
  find_index-none_of_count (hit (some s)) _
      (ground (arith, count-deleted t s s i e, node-hit t s i e, u s)),
  λ q ne.
      find_index-set_same (hit (some q)) t i _ blank_node
        (hit-deleted t s q i ∙ sym (hit-other t s q i e ne)),
  λ q. ground (arith, count-deleted t s q i e, u q),
)

-- After a successful `fs_delete` in a table of unique names the name is not found, every other name
-- is found where it was, and names are still unique.
pub fs_find-fs_delete :
    (t : FsTable) (s : List ℕ) (i : ℕ) (q : List ℕ)
    → Unique t
    → fs_find t (some s) ≡ some i
    → same_name name_len s (some q) ≡ false
    → (fs_find (fs_delete t (some s)).1 (some s) ≡ none)
      × (fs_find (fs_delete t (some s)).1 (some q) ≡ fs_find t (some q))
      × Unique (fs_delete t (some s)).1
fs_find-fs_delete t s i q u e ne =
    let (gone, others, unique) = fs_find-fs_delete_all t s i u e in (gone, others q ne, unique)
