-- ===== src/Paging.antt =====
-- kernel/paging.h and kernel/paging.c: the page table for the first 4 MB and the page directory. The
-- operands of each `|` share no bit, so `|` is written as a sum.
mod Tests
use new_attempt.Base.{
  ◌^◌, Bool, not, true, false, List, Option, [], ap, arith, get_or, if◌then◌else◌, none, replicate,
  some, suc, zero, ℕ, ◌%◌, ◌&&◌, ◌*◌, ◌+◌, ◌-◌, ◌/◌, ◌<◌, ◌==◌, ◌||◌, ◌∙◌, ◌∷◌, ◌≡◌,
}
use new_attempt.Idt.{with_bit}
use new_attempt.Memory.{heap_end, heap_start}

abbrev pub page_size : ℕ
page_size = 4096

abbrev pub pages_4m : ℕ
pages_4m = 1024

abbrev pub pdir_addr : ℕ
pdir_addr = 0x280000

abbrev pub ptab_addr : ℕ
ptab_addr = 0x281000

abbrev pub heap_guard_lo : ℕ
heap_guard_lo = heap_start - page_size

abbrev pub heap_guard_hi : ℕ
heap_guard_hi = heap_end

-- PTE_PRESENT | PTE_WRITABLE
abbrev pub present_writable : ℕ
present_writable = 3

-- The entry that a round of the loop of `paging_init` writes.
unfoldable pub page_entry : ℕ → ℕ
page_entry i =
    let phys = i * page_size in
    if phys == heap_guard_lo
    then phys
    else if phys == heap_guard_hi
    then phys
    else phys + present_writable

-- The loop, with the pages left.
unfoldable pub fill_table : ℕ → ℕ → List ℕ
fill_table zero i = []
fill_table (suc n) i = page_entry i ∷ fill_table n (i + 1)

-- What `paging_init` writes: the page directory and page table 0.
unfoldable pub paging_init : List ℕ × List ℕ
unfolding fill_table
paging_init = ((ptab_addr + present_writable) ∷ replicate 1023 0, fill_table pages_4m 0)

-- The control registers of the processor.
pub record Control : Type 0 where
  pub cr0 : ℕ
  pub cr3 : ℕ
  pub cr4 : ℕ

-- What `paging_init` does to them: CR4.PSE is bit 4, and CR0.PG bit 31.
unfoldable pub load_control : Control → Control
unfolding with_bit
load_control r = record { cr0 = with_bit r.cr0 31; cr3 = pdir_addr; cr4 = with_bit r.cr4 4 }

-- The word of physical memory at an address, as far as the two tables hold it: `paging_init` stores the
-- directory at PDIR_ADDR and the page table at PTAB_ADDR.
unfoldable pub stored_word : List ℕ × List ℕ → ℕ → ℕ
stored_word (pdir, ptab) addr =
    if addr / page_size == pdir_addr / page_size
    then get_or pdir (addr % page_size / 4) 0
    else if addr / page_size == ptab_addr / page_size
    then get_or ptab (addr % page_size / 4) 0
    else 0

-- Bit `n` of a word.
abbrev pub bit_of : ℕ → ℕ → Bool
bit_of w n = w / 2 ^ n % 2 == 1

-- The physical address of a virtual one, as an i386 finds it: with CR0.PG off it is the same; otherwise the
-- directory is in the frame of CR3, and the page table in the frame of the directory's entry, unless
-- that maps 4 MB itself. `none` is a fault.
unfoldable pub translate : Control → List ℕ × List ℕ → ℕ → Option ℕ
unfolding stored_word
translate r tables virt =
    let pde = stored_word tables (r.cr3 / page_size * page_size + virt / 0x400000 * 4) in
    let pte = stored_word tables (pde / page_size * page_size + virt / page_size % 1024 * 4) in
    if not (bit_of r.cr0 31)
    then some virt
    else if not (bit_of pde 0)
    then none
    else if bit_of r.cr4 4 && bit_of pde 7
    then some (pde / 0x400000 * 0x400000 + virt % 0x400000)
    else if bit_of pte 0
    then some (pte / page_size * page_size + virt % page_size)
    else none

fill_table_at : (n i k : ℕ) → k < n → get_or (fill_table n i) k 0 ≡ page_entry (i + k)
unfolding fill_table
fill_table_at zero i k h = absurd (omega arith)
fill_table_at (suc n) i zero h = ap page_entry (omega arith)
fill_table_at (suc n) i (suc k) h =
    fill_table_at n (i + 1) k (omega arith) ∙ ap page_entry (omega arith)

directory_entry :
    (virt : ℕ)
    → virt < 0x400000
    → stored_word paging_init (pdir_addr / page_size * page_size + virt / 0x400000 * 4) ≡ 0x281003
unfolding paging_init stored_word
directory_entry virt h =
    let first_entry : virt / 0x400000 ≡ 0 = omega arith in
    ap (λ (x : ℕ). stored_word paging_init (pdir_addr / page_size * page_size + x * 4)) first_entry

table_entry :
    (virt : ℕ)
    → virt < 0x400000
    → stored_word paging_init (0x281003 / page_size * page_size + virt / page_size % 1024 * 4)
      ≡ page_entry (virt / page_size)
unfolding paging_init stored_word
table_entry virt h =
    let addr : ℕ = 0x281000 + virt / page_size % 1024 * 4 in
    let other : (addr / page_size == pdir_addr / page_size) ≡ false = ground arith in
    let here : (addr / page_size == ptab_addr / page_size) ≡ true = ground arith in
    let offset : addr % page_size / 4 ≡ virt / page_size % 1024 = omega arith in
    rw (other, here, offset)
      (fill_table_at 1024 0 (virt / page_size % 1024) (omega arith) ∙ ap page_entry (omega arith))

pg_on : (r : Control) → bit_of (load_control r).cr0 31 ≡ true
unfolding load_control with_bit
pg_on r = ground arith

-- After `paging_init`, whatever the control registers held, the processor finds in the tables for every
-- address of the first 4 MB that address itself, except in the page before the heap and in the page
-- behind it, where an access faults.
pub translate-paging_init :
    (r : Control) (virt : ℕ)
    → virt < 0x400000
    → translate (load_control r) paging_init virt ≡ (
        if virt / page_size == heap_guard_lo / page_size
          || virt / page_size == heap_guard_hi / page_size
        then none
        else some virt)
unfolding translate page_entry load_control
translate-paging_init r virt h =
    rw (pg_on r, directory_entry virt h, table_entry virt h) (ground arith)
