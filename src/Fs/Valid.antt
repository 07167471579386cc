-- ===== src/Fs/Valid.antt =====
-- The table keeps its shape: 32 nodes, names terminated inside their buffers, sizes within them.
use new_attempt.Base.{
  Bool-cases, inl, inr, Option-cases, All-get_or_default, ◌∙◌, ℕ, ◌≤◌, ◌≡◌, refl, none, some, List,
  [], ◌∷◌, map, arith, length, set, All, All-set, length-set, find_index, length-map,
}
use new_attempt.CString.{CharPtr}
use new_attempt.CString.Copy.{length-strncpy_k}
use new_attempt.Bytes.{length-memcpy_k}
use new_attempt.Fs.{
  is_file, FsNode, NodeType, FsTable, max_files, name_len, data_size, node_at, blank_node, free,
  fs_find, created, fs_create, written, fs_write, deleted, fs_delete, fs_init, cap_len,
}

pub record NodeValid (n : FsNode) : Type 0 where
  pub name_size : length n.name ≡ name_len
  pub content_size : length n.content ≡ data_size
  pub size_fits : n.size ≤ data_size

pub record IsValid (t : FsTable) : Type 0 where
  pub nodes : All NodeValid t
  pub slots : length t ≡ max_files

created-NodeValid :
    {n : FsNode} (name : CharPtr) (type : NodeType) → NodeValid n → NodeValid (created n name type)
unfolding created
created-NodeValid {n} name type v = ground (arith, length-strncpy_k n.name name name_len)

written-NodeValid :
    {n : FsNode} (bytes : List ℕ) (len : ℕ) → NodeValid n → NodeValid (written n bytes len)
unfolding written
written-NodeValid {n} bytes len v =
    ground (arith, length-memcpy_k n.content bytes (cap_len data_size len))

deleted-NodeValid : {n : FsNode} → NodeValid n → NodeValid (deleted n)
unfolding deleted
deleted-NodeValid v = omega arith

set-IsValid : {t : FsTable} (i : ℕ) (n : FsNode) → IsValid t → NodeValid n → IsValid (set t i n)
set-IsValid {t} i n v w = record {
  nodes = All-set NodeValid t i n v.nodes w;
  slots = length-set t i n ∙ v.slots;
}

pub blank-NodeValid : NodeValid blank_node
blank-NodeValid = record { name_size = refl; content_size = refl; size_fits = omega arith }

pub node_at-NodeValid : (t : FsTable) (i : ℕ) → IsValid t → NodeValid (node_at t i)
node_at-NodeValid t i v = All-get_or_default NodeValid t i blank_node v.nodes blank-NodeValid

-- `fs_create` keeps the shape of the table, whatever name it is given.
pub fs_create-IsValid :
    {t : FsTable} (name : CharPtr) (type : NodeType) → IsValid t → IsValid (fs_create t name type).1
unfolding fs_create
fs_create-IsValid none type v = v
fs_create-IsValid {t} (some s) type v = elim (Option-cases (fs_find t (some s))) [
  | inr (i, e) ↦ rw (e, fs_create) v
  | inl e ↦ elim (Option-cases (find_index free t)) [
    | inl f ↦ rw (e, fs_create, f) v
    | inr (i, f) ↦
        rw (e, fs_create, f)
          (set-IsValid i _ v (created-NodeValid (some s) type (node_at-NodeValid t i v)))
  ]
]

-- `fs_write` keeps the shape of the table: no length makes it write past a node's 512 bytes.
pub fs_write-IsValid :
    {t : FsTable} (name : CharPtr) (bytes : List ℕ) (len : ℕ)
    → IsValid t
    → IsValid (fs_write t name bytes len).1
unfolding fs_write
fs_write-IsValid {t} name bytes len v = elim (Option-cases (fs_find t name)) [
  | inl e ↦ rw (e, fs_write) v
  | inr (i, e) ↦
      rw (e, fs_write)
        (elim (Bool-cases (is_file (node_at t i))) [
          | inl f ↦ rw f (set-IsValid i _ v (written-NodeValid bytes len (node_at-NodeValid t i v)))
          | inr f ↦ rw f v
        ])
]

pub fs_delete-IsValid : {t : FsTable} (name : CharPtr) → IsValid t → IsValid (fs_delete t name).1
unfolding fs_delete
fs_delete-IsValid {t} name v = elim (Option-cases (fs_find t name)) [
  | inl e ↦ rw (e, fs_delete) v
  | inr (i, e) ↦ rw (e, fs_delete) (set-IsValid i _ v (deleted-NodeValid (node_at-NodeValid t i v)))
]

All-deleted : (t : FsTable) → All NodeValid t → All NodeValid (map deleted t)
All-deleted [] h = h
All-deleted (n ∷ t) h = (deleted-NodeValid h.0, All-deleted t h.1)

-- `fs_init` leaves a table of that shape, whatever the table held before.
pub fs_init-IsValid : {t : FsTable} → IsValid t → IsValid (fs_init t)
unfolding fs_init
fs_init-IsValid {t} v =
    fs_create-IsValid _ _
      (record { nodes = All-deleted t v.nodes; slots = length-map deleted t ∙ v.slots })
