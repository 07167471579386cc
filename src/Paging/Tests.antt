-- ===== src/Paging/Tests.antt =====
-- Addresses in and beside the heap, translated.
use new_attempt.Base.{arith, if◌then◌else◌, none, some, ◌/◌, ◌==◌, ◌||◌, ◌≡◌}
use new_attempt.Paging.{
  load_control, Control, translate-paging_init, heap_guard_hi, heap_guard_lo, page_size,
  paging_init, translate,
}

-- The processor before paging.
abbrev protected : Control
protected = record { cr0 = 0x11; cr3 = 0; cr4 = 0 }

translate-paging_init_example : translate (load_control protected) paging_init 0x200014 ≡ (
    if 0x200014 / page_size == heap_guard_lo / page_size
      || 0x200014 / page_size == heap_guard_hi / page_size
    then none
    else some 0x200014)
translate-paging_init_example = translate-paging_init protected 0x200014 (omega arith)
