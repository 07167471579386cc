-- ===== src/Fs/Tests.antt =====
-- The virtual filesystem at boot, and the theorems at its table.
use new_attempt.Base.{
  false, refl, none, true, [], ◌∷◌, arith, ◌≡◌, find_index, some, count, All-replicate, replicate,
  ℕ, List,
}
use new_attempt.Fs.{
  fs_delete, is_file, fs_read, deleted, pos, name_len, created, file, blank_node, node_at,
  max_files, fs_find, free, fs_write, fs_create, hit, fs_init, FsTable,
}
use new_attempt.Fs.Valid.{blank-NodeValid, NodeValid, fs_create-IsValid, fs_init-IsValid, IsValid}
use new_attempt.CString.{strncpy_k, same_name, cstr, codes}
use new_attempt.Bytes.{memcpy_k}
use new_attempt.Fs.Names.{
  fs_find-fs_delete, fs_create-Unique, fs_find-fs_create, fs_find-fs_create_long, Unique,
}
use new_attempt.Fs.Content.{fs_read-fs_write}

-- The table of static memory, and after `fs_init`.
abbrev static : FsTable
static = replicate max_files blank_node

static-IsValid : IsValid static
static-IsValid = record {
  nodes = All-replicate NodeValid max_files blank_node (blank-NodeValid);
  slots = refl;
}

booted : FsTable
booted = fs_init static

booted-IsValid : IsValid booted
unfolding booted
booted-IsValid = fs_init-IsValid static-IsValid

abbrev notes : List ℕ
notes = codes "notes.txt"

abbrev long_name : List ℕ
long_name = codes "a-name-of-twenty-six-bytes"

with_notes : FsTable
unfolding booted
with_notes = (fs_create booted (some notes) file).1

with_notes-IsValid : IsValid with_notes
unfolding with_notes
with_notes-IsValid = fs_create-IsValid (some notes) file booted-IsValid

root_found : fs_find booted (some (codes "/")) ≡ some 0
unfolding booted fs_init fs_create fs_find find_index hit same_name created strncpy_k deleted free
root_found = refl

notes_found : (fs_create booted (some notes) file).0 ≡ pos 0
unfolding booted fs_init fs_create fs_find find_index hit same_name created strncpy_k deleted free
notes_found = refl

notes_at : fs_find with_notes (some notes) ≡ some 1
unfolding with_notes fs_init fs_create fs_find find_index hit same_name created strncpy_k deleted
    free
notes_at = refl

notes_file : is_file (node_at with_notes 1) ≡ true
unfolding with_notes fs_init fs_create fs_find find_index hit same_name created strncpy_k deleted
    free
notes_file = refl

abbrev other : List ℕ
other = codes "motd"

notes-other : same_name name_len notes (some other) ≡ false
unfolding same_name
notes-other = refl

fs_find-fs_create_example :
    (i : ℕ) × (free (node_at booted i) ≡ true)
    × (fs_find (fs_create booted (some notes) file).1 (some notes) ≡ some i)
    × (fs_find (fs_create booted (some notes) file).1 (some other) ≡ fs_find booted (some other))
unfolding cstr
fs_find-fs_create_example =
    fs_find-fs_create booted notes file other booted-IsValid (omega arith) notes_found notes-other

long_created : (fs_create booted (some long_name) file).0 ≡ pos 0
unfolding booted fs_init fs_create fs_find find_index hit same_name created strncpy_k deleted free
long_created = refl

fs_find-fs_create_long_example :
    fs_find (fs_create booted (some long_name) file).1 (some long_name) ≡ none
unfolding cstr
fs_find-fs_create_long_example =
    fs_find-fs_create_long booted long_name file booted-IsValid (omega arith) long_created

static-Unique : Unique static
unfolding hit count
static-Unique q = omega arith

fs_read-fs_write_example :
    ((fs_write with_notes (some notes) (7 ∷ 8 ∷ 9 ∷ []) 3).0 ≡ pos 3)
    × (fs_read (fs_write with_notes (some notes) (7 ∷ 8 ∷ 9 ∷ []) 3).1 (some notes) (0 ∷ 0 ∷ []) 2
        ≡ (pos 2, 7 ∷ 8 ∷ []))
unfolding memcpy_k
fs_read-fs_write_example =
    fs_read-fs_write with_notes (some notes) (7 ∷ 8 ∷ 9 ∷ []) 3 1 (0 ∷ 0 ∷ []) 2 with_notes-IsValid
      notes_at notes_file

-- A table with one file, in which names are unique.
abbrev one_file : FsTable
one_file = (fs_create static (some notes) file).1

one_file-Unique : Unique one_file
unfolding cstr
one_file-Unique = fs_create-Unique static notes file static-IsValid (omega arith) static-Unique

one_file_at : fs_find one_file (some notes) ≡ some 0
unfolding fs_create fs_find find_index hit same_name created strncpy_k free
one_file_at = refl

fs_find-fs_delete_example :
    (fs_find (fs_delete one_file (some notes)).1 (some notes) ≡ none)
    × (fs_find (fs_delete one_file (some notes)).1 (some other) ≡ fs_find one_file (some other))
    × Unique (fs_delete one_file (some notes)).1
fs_find-fs_delete_example =
    fs_find-fs_delete one_file notes 0 other one_file-Unique one_file_at notes-other
