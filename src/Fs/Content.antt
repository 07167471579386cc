-- ===== src/Fs/Content.antt =====
-- What `fs_write` stores is what `fs_read` returns.
use new_attempt.Base.{
  sym, get_or-set_ne, Bool-cases, inr, inl, Option-cases, false, none, ◌∙◌, ap, refl, find_index_lt,
  min, find_index-set_same, get_or-set_self, length, ◌<◌, set, true, some, ◌≢◌, ◌≡◌, ℕ, List, arith,
}
use new_attempt.Fs.{
  negsuc, FsNode, memcpy_k, blank_node, data_size, cap_len, hit, written, pos, node_at, fs_write,
  is_file, fs_read, fs_find, CharPtr, FsTable,
}
use new_attempt.Fs.Valid.{node_at-NodeValid, IsValid}
use new_attempt.Bytes.{memcpy_k-memcpy_k}

module _ (t : FsTable) (name : CharPtr) (bytes : List ℕ) (len i : ℕ) (v : IsValid t)
    (found : fs_find t name ≡ some i) (plain : is_file (node_at t i) ≡ true) where
  abbrev after : FsTable
  after = set t i (written (node_at t i) bytes len)

  fs_write-eq : fs_write t name bytes len ≡ (pos (cap_len data_size len), after)
  unfolding fs_write
  fs_write-eq = rw (found, fs_write, plain)

  in_table : i < length t
  unfolding fs_find
  in_table = find_index_lt (hit name) t i found

  node-after : node_at after i ≡ written (node_at t i) bytes len
  node-after = get_or-set_self t i _ blank_node in_table

  -- The search does not see the contents of a node.
  find-after : (q : CharPtr) → fs_find after q ≡ fs_find t q
  unfolding fs_find hit written
  find-after q = find_index-set_same (hit q) t i _ blank_node refl

cap_len-min : (limit len : ℕ) → cap_len limit len ≡ min len limit
cap_len-min limit len = ground arith

fs_read-eq :
    (t : FsTable) (name : CharPtr) (buf : List ℕ) (n j : ℕ)
    → fs_find t name ≡ some j
    → is_file (node_at t j) ≡ true
    → fs_read t name buf n ≡ (
      pos (min n (node_at t j).size),
      memcpy_k buf (node_at t j).content (min n (node_at t j).size),
    )
unfolding fs_read
fs_read-eq t name buf n j e f = rw (e, fs_read, f, cap_len-min)

-- What a file holds after a write.
written-fields :
    (n : FsNode) (bytes : List ℕ) (len : ℕ)
    → (is_file (written n bytes len) ≡ is_file n)
      × ((written n bytes len).size ≡ min len data_size)
      × ((written n bytes len).content ≡ memcpy_k n.content bytes (min len data_size))
unfolding written
written-fields n bytes len =
    (refl, cap_len-min data_size len, ap (memcpy_k n.content bytes) (cap_len-min data_size len))

-- A read of a file after a write to it returns the bytes written, cut to 512 and to the length
-- that the reader asks for; the write says how many bytes it kept.
pub fs_read-fs_write :
    (t : FsTable) (name : CharPtr) (bytes : List ℕ) (len i : ℕ) (buf : List ℕ) (n : ℕ)
    → IsValid t
    → fs_find t name ≡ some i
    → is_file (node_at t i) ≡ true
    → ((fs_write t name bytes len).0 ≡ pos (min len data_size))
      × (fs_read (fs_write t name bytes len).1 name buf n
          ≡ (pos (min n (min len data_size)), memcpy_k buf bytes (min n (min len data_size))))
fs_read-fs_write t name bytes len i buf n v found plain =
    let m = min len data_size in
    let (kind, size, content) = written-fields (node_at t i) bytes len in
    let here = node-after t name bytes len i v found plain in
    rw (fs_write-eq t name bytes len i v found plain) (
      ap pos (cap_len-min data_size len),
      fs_read-eq (after t name bytes len i v found plain) name buf n i
            (find-after t name bytes len i v found plain name ∙ found) (rw (here, kind) plain)
          ∙ rw (here, size, content)
              (rw (
                memcpy_k-memcpy_k buf (node_at t i).content bytes (min n m) m
                  (omega (arith, (node_at-NodeValid t i v).content_size)) (omega arith))),
    )

module _ (t : FsTable) (name : CharPtr) (bytes : List ℕ) (len : ℕ) where
  fs_write-none : fs_find t name ≡ none → fs_write t name bytes len ≡ (negsuc 0, t)
  unfolding fs_write
  fs_write-none e = rw (e, fs_write)

  fs_write-dir :
      (i : ℕ)
      → fs_find t name ≡ some i
      → is_file (node_at t i) ≡ false
      → fs_write t name bytes len ≡ (negsuc 0, t)
  unfolding fs_write
  fs_write-dir i e f = rw (e, fs_write, f)

-- A read depends on the search for the name and on the node found.
fs_read_congr :
    (t u : FsTable) (name : CharPtr) (buf : List ℕ) (n : ℕ)
    → fs_find u name ≡ fs_find t name
    → ((j : ℕ) → fs_find t name ≡ some j → node_at u j ≡ node_at t j)
    → fs_read u name buf n ≡ fs_read t name buf n
unfolding fs_read
fs_read_congr t u name buf n e h = elim (Option-cases (fs_find t name)) [
  | inl f ↦ rw (e, f, fs_read)
  | inr (j, f) ↦ rw (e, f, fs_read, h j f)
]

-- A write to one node leaves what every other node reads as it was.
pub fs_read-fs_write_other :
    (t : FsTable) (name other : CharPtr) (bytes : List ℕ) (len : ℕ) (buf : List ℕ) (n : ℕ)
    → IsValid t
    → fs_find t name ≢ fs_find t other
    → fs_read (fs_write t name bytes len).1 other buf n ≡ fs_read t other buf n
fs_read-fs_write_other t name other bytes len buf n v ne = elim (Option-cases (fs_find t name)) [
  | inl e ↦ rw (fs_write-none t name bytes len e)
  | inr (i, e) ↦ elim (Bool-cases (is_file (node_at t i))) [
    | inl f ↦ rw (fs_write-eq t name bytes len i v e f) (
        fs_read_congr t (after t name bytes len i v e f) other buf n
          (find-after t name bytes len i v e f other)
          λ j g. get_or-set_ne t i j _ blank_node (λ same. ne (e ∙ ap some same ∙ sym g)))
    | inr f ↦ rw (fs_write-dir t name bytes len i e f)
  ]
]
