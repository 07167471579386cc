-- ===== src/Memory.antt =====
-- kernel/memory.h and kernel/memory.c: the heap. `cells a` is what a header at address `a` holds; the
-- bytes between headers belong to the callers and are not modelled. Pointers are addresses, 0 for
-- NULL. `sizeof(block_hdr_t)` is 20 on the i386 target: two words, a byte padded to a word, two
-- pointers.
pub mod Chain
pub mod Alloc
pub mod Free
pub mod Release
pub mod Stats
mod Tests
use new_attempt.Base.{
  Bool, Option, false, if◌then◌else◌, leb, none, not, some, suc, true, zero, ℕ, ◌%◌, ◌&&◌, ◌*◌, ◌+◌,
  ◌-◌, ◌/◌, ◌==◌, ◌^◌,
}

abbrev pub heap_start : ℕ
heap_start = 0x200000

abbrev pub heap_size : ℕ
heap_size = 0x80000

abbrev pub heap_end : ℕ
heap_end = heap_start + heap_size

abbrev pub block_magic : ℕ
block_magic = 0xA3A30000

abbrev pub hdr_size : ℕ
hdr_size = 20

-- `block_hdr_t`; `used` is MEM_USED or MEM_FREE.
pub record Header : Type 0 where
  pub magic : ℕ
  pub size : ℕ
  pub used : Bool
  pub next : ℕ
  pub prev : ℕ

abbrev pub Cells : Type 0
Cells = ℕ → Header

-- `*p = v`
unfoldable pub write : Cells → ℕ → Header → Cells
write c p v a = if a == p then v else c a

-- What 20 zero bytes read as.
abbrev zeroed : Header
zeroed = record { magic = 0; size = 0; used = false; next = 0; prev = 0 }

-- The headers after `memory_init`, which writes the first one and clears the bytes behind it;
-- `heap_head` is `heap_start` from then on.
unfoldable pub memory_init : Cells → Cells
memory_init c a =
    if a == heap_start
    then record {
      magic = block_magic;
      size = heap_size - hdr_size;
      used = false;
      next = 0;
      prev = 0;
    }
    else if leb (heap_start + hdr_size) a && leb (a + hdr_size) heap_end
    then zeroed
    else c a

-- `(size + 7) & ~7UL` on 32 bits
unfoldable pub align8 : ℕ → ℕ
align8 size = (size + 7) % 2 ^ 32 / 8 * 8

-- `if (p) p->prev = q;`
unfoldable pub set_prev : Cells → ℕ → ℕ → Cells
set_prev c p q = if p == 0 then c else write c p (record (c p) { prev = q })

-- The body of `if (cur->size >= size + HDR_SIZE + 8)`, and the mark that follows it.
unfoldable pub split_block : Cells → ℕ → ℕ → Cells
split_block c cur size =
    let b = c cur in
    let next_blk = cur + hdr_size + size in
    let c1 = write c next_blk (record {
      magic = block_magic;
      size = b.size - size - hdr_size;
      used = false;
      next = b.next;
      prev = cur;
    }) in
    let c2 = set_prev c1 b.next next_blk in
    write c2 cur (record (c2 cur) { next = next_blk; size = size; used = true })

-- The block at `cur` is taken, and split if there is room for a header and 8 bytes.
unfoldable pub take_block : Cells → ℕ → ℕ → Cells
take_block c cur size =
    if leb ((size + hdr_size + 8) % 2 ^ 32) (c cur).size
    then split_block c cur size
    else write c cur (record (c cur) { used = true })

-- `while (cur)`, on fuel: `none` when it runs out.
unfoldable pub kmalloc_loop : ℕ → Cells → ℕ → ℕ → Option (ℕ × Cells)
kmalloc_loop zero c cur size = none
kmalloc_loop (suc fuel) c cur size =
    let again = kmalloc_loop fuel c (c cur).next size in
    if cur == 0
    then some (0, c)
    else if not (c cur).used && leb size (c cur).size
    then some (cur + hdr_size, take_block c cur size)
    else again

-- The result is the pointer, beside the headers afterwards.
unfoldable pub kmalloc : ℕ → Cells → ℕ → Option (ℕ × Cells)
kmalloc fuel c size =
    if size == 0 then some (0, c) else kmalloc_loop fuel c heap_start (align8 size)

-- The coalescing step of `kfree` with the block behind `blk`.
unfoldable pub merge_next : Cells → ℕ → Cells
merge_next c blk =
    let b = c blk in
    let n = c b.next in
    if not (b.next == 0) && not n.used
    then set_prev
        (write c blk (record b { size = (b.size + (hdr_size + n.size)) % 2 ^ 32; next = n.next }))
        n.next blk
    else c

-- The coalescing step with the block before `blk`.
unfoldable pub merge_prev : Cells → ℕ → Cells
merge_prev c blk =
    let b = c blk in
    let p = c b.prev in
    if not (b.prev == 0) && not p.used
    then set_prev
        (write c b.prev
          (record p { size = (p.size + (hdr_size + b.size)) % 2 ^ 32; next = b.next }))
        b.next b.prev
    else c

-- `(uint8_t *)ptr - HDR_SIZE` on 32 bits
abbrev pub header_of : ℕ → ℕ
header_of ptr = (ptr + 2 ^ 32 - hdr_size) % 2 ^ 32

unfoldable pub kfree : Cells → ℕ → Cells
kfree c ptr =
    let blk = header_of ptr in
    if ptr == 0
    then c
    else if not ((c blk).magic == block_magic)
    then c
    else merge_prev (merge_next (write c blk (record (c blk) { used = false })) blk) blk

-- `memory_stats`: the bytes used and the bytes free, on 32 bits.
unfoldable pub stats_loop : ℕ → Cells → ℕ → ℕ → ℕ → Option (ℕ × ℕ)
stats_loop zero c cur used free_bytes = none
stats_loop (suc fuel) c cur used free_bytes =
    let b = c cur in
    let again =
      stats_loop fuel c b.next (if b.used then (used + b.size) % 2 ^ 32 else used)
        (if b.used then free_bytes else (free_bytes + b.size) % 2 ^ 32) in
    if cur == 0 then some (used, free_bytes) else again

unfoldable pub memory_stats : ℕ → Cells → Option (ℕ × ℕ)
unfolding stats_loop
memory_stats fuel c = stats_loop fuel c heap_start 0 0
