-- ===== src/Memory/Tests.antt =====
-- The heap after `memory_init` and after a few calls, and the theorems at it.
use new_attempt.Base.{
  List, Option, [], arith, count, false, none, refl, some, true, ℕ, ◌*◌, ◌+◌, ◌-◌, ◌↔◌, ◌∷◌, ◌≡◌,
}
use new_attempt.Memory.{
  set_prev, split_block, take_block, kfree, hdr_size, align8, block_magic, heap_size, memory_stats,
  kmalloc_loop, heap_start, memory_init, kmalloc, write, Cells,
}
use new_attempt.Memory.Chain.{block, IsHeap, Block}
use new_attempt.Memory.Alloc.{
  kmalloc-first_fit, kmalloc_wraps, has_room, split, memory_init-IsHeap, first_fit,
}
use new_attempt.Memory.Free.{absorb, join}
use new_attempt.Memory.Stats.{memory_stats_lem, total}
use new_attempt.Memory.Release.{released, kfree-join}

abbrev booted : Cells
booted = memory_init (λ a. record { magic = 7; size = 7; used = true; next = 7; prev = 7 })

abbrev one_block : List Block
one_block = block (heap_size - hdr_size) false ∷ []

booted-IsHeap : IsHeap booted one_block
booted-IsHeap =
    memory_init-IsHeap (λ a. record { magic = 7; size = 7; used = true; next = 7; prev = 7 })

-- The headers of three blocks: 16 bytes free, 8 taken, and the rest free.
three : Cells
unfolding write
three =
    write
      (write
        (write booted heap_start
          (record { magic = block_magic; size = 16; used = false; next = 0x200024; prev = 0 }))
        0x200024
        (record { magic = block_magic; size = 8; used = true; next = 0x200040; prev = heap_start }))
      0x200040
      (record { magic = block_magic; size = 0x7FFAC; used = false; next = 0; prev = 0x200024 })

abbrev three_blocks : List Block
three_blocks = block 16 false ∷ block 8 true ∷ block 0x7FFAC false ∷ []

three-IsHeap : IsHeap three three_blocks
unfolding three
three-IsHeap = (refl, (refl, (refl, refl)))

abbrev pointer : Option (ℕ × Cells) → ℕ
pointer none = 1
pointer (some (p, c)) = p

kmalloc_runs : pointer (kmalloc 2 booted 13) ≡ heap_start + hdr_size
unfolding kmalloc kmalloc_loop align8 memory_init take_block split_block write set_prev
kmalloc_runs = refl

kmalloc-first_fit_example :
    (d : Cells) × (kmalloc 4 three 13 ≡ some (heap_start + hdr_size, d))
    × IsHeap d (block 16 true ∷ block 8 true ∷ block 0x7FFAC false ∷ [])
    × ((heap_start + hdr_size ≡ 0) ↔ (count (has_room 16) three_blocks ≡ 0))
unfolding first_fit split align8
kmalloc-first_fit_example =
    kmalloc-first_fit 4 three three_blocks 13 three-IsHeap (omega arith) (omega arith)

kmalloc_wraps_example :
    (d : Cells) × (kmalloc 2 booted 0xFFFFFFFF ≡ some (heap_start + hdr_size, d))
    × IsHeap d (block 0 true ∷ block (heap_size - 2 * hdr_size) false ∷ [])
kmalloc_wraps_example =
    kmalloc_wraps (λ a. record { magic = 7; size = 7; used = true; next = 7; prev = 7 }) 0xFFFFFFFF
      (omega arith) (omega arith)

kfree-join_example : IsHeap (kfree three 0x200038) (block 0x7FFEC false ∷ [])
unfolding released join absorb
kfree-join_example =
    kfree-join three (block 16 false ∷ []) (block 8 true) (block 0x7FFAC false ∷ []) three-IsHeap

memory_stats_lem_example :
    (memory_stats 4 three ≡ some (8, 0x7FFBC)) × (8 + 0x7FFBC + 3 * hdr_size ≡ heap_size)
unfolding total
memory_stats_lem_example = memory_stats_lem 4 three three_blocks three-IsHeap (omega arith)
