-- ===== src/Fs.antt =====
-- env/fs.h and env/fs.c: the virtual filesystem, a table of 32 nodes. An operation takes the table
-- and returns it beside the `int` of the C function; a node pointer is an index into the table.
pub mod Valid
pub mod Names
pub mod Content
mod Tests
use new_attempt.Base.{
  ℕ, Bool, true, false, ◌&&◌, not, Option, none, some, List, map, get_or, set, replicate,
  find_index, ltb, if◌then◌else◌,
}
use new_attempt.Base.Int.{ℤ, pos, negsuc}
use new_attempt.CString.{CharPtr, codes, same_name, strncpy_k}
use new_attempt.Bytes.{memcpy_k}

abbrev pub max_files : ℕ
max_files = 32

abbrev pub name_len : ℕ
name_len = 24

abbrev pub data_size : ℕ
data_size = 512

-- `fs_node_type_t`
pub data NodeType : Type 0 where
  file dir : NodeType

-- `fs_node_t`; `valid` is 0 or 1.
pub record FsNode : Type 0 where
  pub name : List ℕ
  pub type : NodeType
  pub size : ℕ
  pub content : List ℕ
  pub valid : Bool

-- `fs_table`
abbrev pub FsTable : Type 0
FsTable = List FsNode

-- A node of zero-initialised static memory.
abbrev pub blank_node : FsNode
blank_node = record {
  name = replicate name_len 0;
  type = file;
  size = 0;
  content = replicate data_size 0;
  valid = false;
}

abbrev pub node_at : FsTable → ℕ → FsNode
node_at t i = get_or t i blank_node

-- The test of the loop in `fs_find`.
unfoldable pub hit : CharPtr → FsNode → Bool
hit name n = n.valid && same_name name_len n.name name

unfoldable pub free : FsNode → Bool
free n = not n.valid

abbrev pub is_file : FsNode → Bool
is_file n = elim n.type [ file ↦ true | dir ↦ false ]

unfoldable pub fs_find : FsTable → CharPtr → Option ℕ
fs_find t name = find_index (hit name) t

-- The node that `fs_create` leaves in a free slot.
unfoldable pub created : FsNode → CharPtr → NodeType → FsNode
created n name type = record n {
  name = strncpy_k n.name name name_len;
  type = type;
  size = 0;
  valid = true;
}

unfoldable pub fs_create : FsTable → CharPtr → NodeType → ℤ × FsTable
fs_create t none type = (negsuc 0, t)
fs_create t (some name) type = elim (fs_find t (some name)) [
  | some i ↦ (negsuc 0, t)
  | none ↦ elim (find_index free t) [
    | some i ↦ (pos 0, set t i (created (node_at t i) (some name) type))
    | none ↦ (negsuc 0, t)
  ]
]

-- `if (len > FS_DATA_SIZE) len = FS_DATA_SIZE;`
abbrev pub cap_len : ℕ → ℕ → ℕ
cap_len limit len = if ltb limit len then limit else len

unfoldable pub written : FsNode → List ℕ → ℕ → FsNode
written n bytes len =
    let len' = cap_len data_size len in
    record n { content = memcpy_k n.content bytes len'; size = len' }

unfoldable pub fs_write : FsTable → CharPtr → List ℕ → ℕ → ℤ × FsTable
fs_write t name bytes len = elim (fs_find t name) [
  | none ↦ (negsuc 0, t)
  | some i ↦
      if is_file (node_at t i)
      then (pos (cap_len data_size len), set t i (written (node_at t i) bytes len))
      else (negsuc 0, t)
]

-- The result is the number of bytes, beside what `buf` holds afterwards.
unfoldable pub fs_read : FsTable → CharPtr → List ℕ → ℕ → ℤ × List ℕ
fs_read t name buf len = elim (fs_find t name) [
  | none ↦ (negsuc 0, buf)
  | some i ↦
      let n = node_at t i in
      let len' = cap_len n.size len in
      if is_file n then (pos len', memcpy_k buf n.content len') else (negsuc 0, buf)
]

unfoldable pub deleted : FsNode → FsNode
deleted n = record n { valid = false; size = 0 }

unfoldable pub fs_delete : FsTable → CharPtr → ℤ × FsTable
fs_delete t name = elim (fs_find t name) [
  | none ↦ (negsuc 0, t)
  | some i ↦ (pos 0, set t i (deleted (node_at t i)))
]

unfoldable pub fs_init : FsTable → FsTable
unfolding deleted
fs_init t = (fs_create (map deleted t) (some (codes "/")) dir).1
