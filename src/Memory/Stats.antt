-- ===== src/Memory/Stats.antt =====
-- `memory_stats` against the blocks of the heap.
use new_attempt.Base.{
  Bool, List, [], ap, arith, bool_eq, false, if◌then◌else◌, length, some, suc, sym, true, zero, ℕ,
  ◌%◌, ◌*◌, ◌+◌, ◌<◌, ◌==◌, ◌^◌, ◌∙◌, ◌∷◌, ◌≡◌,
}
use new_attempt.Memory.Chain.{behind, link, IsHeap, Chain, Block}
use new_attempt.Memory.{heap_start, heap_size, heap_end, hdr_size, memory_stats, stats_loop, Cells}
use new_attempt.Memory.Alloc.{IsHeap-link}

-- The bytes of the blocks that are taken, or of those that are free.
unfoldable pub total : Bool → List Block → ℕ
total t [] = 0
total t (b ∷ bs) = (if bool_eq b.taken t then b.bytes else 0) + total t bs

total-Chain :
    (c : Cells) (prev a : ℕ) (bs : List Block)
    → Chain c prev a bs
    → a + length bs * hdr_size + total true bs + total false bs ≡ heap_end
unfolding total
total-Chain c prev a [] h = omega arith
total-Chain c prev a (b ∷ bs) h = ground (arith, total-Chain c a (behind a b) bs h.1)

stats_loop-total :
    (fuel : ℕ) (c : Cells) (prev a : ℕ) (bs : List Block) (used free_bytes : ℕ)
    → Chain c prev a bs
    → 0 < a
    → length bs < fuel
    → used + total true bs < 2 ^ 32
    → free_bytes + total false bs < 2 ^ 32
    → stats_loop fuel c (link a bs) used free_bytes
      ≡ some (used + total true bs, free_bytes + total false bs)
unfolding stats_loop total
stats_loop-total zero c prev a bs used free_bytes h pa lt ub fb = absurd (omega arith)
stats_loop-total (suc fuel) c prev a [] used free_bytes h pa lt ub fb = ground arith
stats_loop-total (suc fuel) c prev a (b ∷ bs) used free_bytes h pa lt ub fb =
    let alive : (a == 0) ≡ false = ground arith in
    rw (alive, h.0)
      (ground (
        arith,
        stats_loop-total fuel c a (behind a b) bs
            (if b.taken then (used + b.bytes) % 2 ^ 32 else used)
            (if b.taken then free_bytes else (free_bytes + b.bytes) % 2 ^ 32) h.1,
      ))

-- On a heap of blocks that lie end to end, and with more rounds than blocks, `memory_stats` returns
-- the bytes of the taken and of the free blocks; with 20 bytes for each block's header they make up the
-- whole heap.
pub memory_stats_lem :
    (fuel : ℕ) (c : Cells) (bs : List Block)
    → IsHeap c bs
    → length bs < fuel
    → (memory_stats fuel c ≡ some (total true bs, total false bs))
      × (total true bs + total false bs + length bs * hdr_size ≡ heap_size)
unfolding memory_stats
memory_stats_lem fuel c bs h lt =
    let sum = total-Chain c 0 heap_start bs h in
    (
      ap (λ k. stats_loop fuel c k 0 0) (sym (IsHeap-link c bs h))
          ∙ stats_loop-total fuel c 0 heap_start bs 0 0 h (omega arith) lt (omega arith)
              (omega arith)
          ∙ ground arith,
      omega arith,
    )
