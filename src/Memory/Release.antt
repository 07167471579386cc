-- ===== src/Memory/Release.antt =====
-- `kfree` on the whole heap.
use new_attempt.Base.{
  Bool-cases, List, [], ap, arith, false, inl, inr, refl, subst, sym, true, ℕ, ◌++◌, ◌+◌, ◌<◌, ◌==◌,
  ◌∙◌, ◌∷◌, ◌≡◌,
}
use mathlib.Core.List.{append_assoc}
use new_attempt.Memory.{
  header_of, heap_end, Header, block_magic, merge_prev, heap_start, merge_next, hdr_size, write,
  kfree, Cells,
}
use new_attempt.Memory.Chain.{
  Chain-replace, Chain-drop, block, end_of-le, Chain-le, Chain-above, last_of, write-ne, end_of,
  SameBelow, write-eq, behind, IsHeap, link, Chain, Block,
}
use new_attempt.Memory.Free.{
  merge_prev-first, merge_prev-join, join-free, absorb-head, merge_next-Chain, join-taken, absorb,
  join, freed,
}

-- The header at `a` with its block marked free.
abbrev marked : Cells → ℕ → Cells
marked c a = write c a (record (c a) { used = false })

mark-Chain :
    (c : Cells) (prev a : ℕ) (b : Block) (ys : List Block)
    → Chain c prev a (b ∷ ys)
    → Chain (marked c a) prev a (freed b ∷ ys)
mark-Chain c prev a b ys h = (
  write-eq c a _ ∙ ap (λ (v : Header). record v { used = false }) h.0,
  Chain-above c _ a (behind a b) ys (λ p q. write-ne c a p _ (omega arith)) h.1,
)

-- For the pointer to a block of the heap the guard of `kfree` passes.
kfree-eq :
    (c : Cells) (prev a : ℕ) (b : Block) (ys : List Block)
    → Chain c prev a (b ∷ ys)
    → kfree c (a + hdr_size) ≡ merge_prev (merge_next (marked c a) a) a
unfolding kfree
kfree-eq c prev a b ys h =
    let small : a < heap_end = omega (arith, Chain-le c a (behind a b) ys h.1) in
    let e : header_of (a + hdr_size) ≡ a = omega arith in
    let z : (a + hdr_size == 0) ≡ false = ground arith in
    let g : ((c a).magic == block_magic) ≡ true = rw h.0 in rw (z, e, g)

join-link : (a : ℕ) (x : Block) (r : List Block) → link a (join x r) ≡ a
join-link a x r = elim (Bool-cases x.taken) [
  | inl t ↦ rw (join-taken x r t)
  | inr t ↦ let (n, s, e) = absorb-head x r in rw (join-free x r t, e)
]

-- A chain whose first block is followed by other blocks from the same place.
Chain-cons :
    (c d : Cells) (prev a : ℕ) (x : Block) (ys zs : List Block)
    → Chain c prev a (x ∷ ys)
    → d a ≡ c a
    → link (behind a x) ys ≡ link (behind a x) zs
    → Chain d a (behind a x) zs
    → Chain d prev a (x ∷ zs)
Chain-cons c d prev a x ys zs h same l k = (
  same
      ∙ h.0
      ∙ ap
          (λ n. record {
            magic = block_magic;
            size = x.bytes;
            used = x.taken;
            next = n;
            prev = prev;
          })
          l,
  k,
)

module _ (c : Cells) (prev a : ℕ) (pos_a : 0 < a) (x b : Block) (ys : List Block)
    (h : Chain c prev a (x ∷ b ∷ ys)) where
  after : Cells
  after = merge_next (marked c (behind a x)) (behind a x)

  -- The two blocks before the second step of `kfree`.
  after-Chain : Chain after prev a (x ∷ absorb (freed b) ys) × SameBelow (behind a x) c after
  unfolding after
  after-Chain =
      let (k, same) =
        merge_next-Chain _ a (behind a x) (freed b) ys (mark-Chain c a (behind a x) b ys h.1) in
      let below : SameBelow (behind a x) c after =
        λ p lt. same p lt ∙ write-ne c (behind a x) p _ (omega arith) in
      let (n, r, e) = absorb-head (freed b) ys in
      (
        Chain-cons c after prev a x (b ∷ ys) (absorb (freed b) ys) h (below a (omega arith)) (rw e)
            k,
        below,
      )

  kfree-suffix :
      Chain (kfree c (behind a x + hdr_size)) prev a (join x (absorb (freed b) ys))
      × SameBelow a c (kfree c (behind a x + hdr_size))
  unfolding after
  kfree-suffix =
      let (n, r, e) = absorb-head (freed b) ys in
      let (k, below) = after-Chain in
      let (done, same) =
        merge_prev-join after prev a pos_a x (block n false) r
          (subst (λ t. Chain after prev a (x ∷ t)) e k) refl in
      rw (kfree-eq c a (behind a x) b ys h.1, e) (done, λ p lt. same p lt ∙ below p (omega arith))

-- On a heap of blocks that lie end to end, `kfree` of the pointer to a block with a block before it
-- marks it free and joins it with the block behind if that is free, then with the block before if
-- that is free; every other block stays, and the blocks still lie end to end.
kfree-behind :
    (c : Cells) (zs : List Block) (x b : Block) (ys : List Block)
    → IsHeap c (zs ++ (x ∷ b ∷ ys))
    → IsHeap
        (kfree c (behind (end_of heap_start zs) x + hdr_size))
        (zs ++ join x (absorb (freed b) ys))
kfree-behind c zs x b ys h =
    let a = end_of heap_start zs in
    let (k, same) =
      kfree-suffix c (last_of 0 heap_start zs) a (omega (arith, end_of-le heap_start zs)) x b ys
        (Chain-drop c 0 heap_start zs (x ∷ b ∷ ys) h) in
    Chain-replace c _ 0 heap_start zs (x ∷ b ∷ ys) (join x (absorb (freed b) ys)) h same
      (sym (join-link a x (absorb (freed b) ys))) k

-- The same for the first block of the heap, which has no block before it.
kfree-first :
    (c : Cells) (b : Block) (ys : List Block)
    → IsHeap c (b ∷ ys)
    → IsHeap (kfree c (heap_start + hdr_size)) (absorb (freed b) ys)
kfree-first c b ys h =
    let (k, same) =
      merge_next-Chain _ 0 heap_start (freed b) ys (mark-Chain c 0 heap_start b ys h) in
    let (n, r, e) = absorb-head (freed b) ys in
    let k' : Chain (merge_next (marked c heap_start) heap_start) 0 heap_start (block n false ∷ r) =
      subst (λ t. Chain (merge_next (marked c heap_start) heap_start) 0 heap_start t) e k in
    rw (kfree-eq c 0 heap_start b ys h, merge_prev-first _ heap_start (block n false) r k') k

-- The blocks of the heap once the block `b` behind `zs` is free: it takes in the block behind it if that
-- is free, and then joins the block before it, if there is one and that is free.
unfoldable pub released : List Block → Block → List Block → List Block
released [] b ys = absorb (freed b) ys
released (x ∷ []) b ys = join x (absorb (freed b) ys)
released (x ∷ y ∷ zs) b ys = x ∷ released (y ∷ zs) b ys

released-behind :
    (zs : List Block) (x b : Block) (ys : List Block)
    → released (zs ++ (x ∷ [])) b ys ≡ zs ++ join x (absorb (freed b) ys)
unfolding released
released-behind [] x b ys = refl
released-behind (z ∷ []) x b ys = refl
released-behind (z ∷ w ∷ zs) x b ys = ap (λ l. z ∷ l) (released-behind (w ∷ zs) x b ys)

end_of-behind :
    (a : ℕ) (zs : List Block) (x : Block) → end_of a (zs ++ (x ∷ [])) ≡ behind (end_of a zs) x
end_of-behind a [] x = refl
end_of-behind a (z ∷ zs) x = end_of-behind (behind a z) zs x

-- The last block of some blocks.
last_block :
    (z : Block) (zs : List Block) → (ws : List Block) × (x : Block) × (z ∷ zs ≡ ws ++ (x ∷ []))
last_block z [] = ([], z, refl)
last_block z (y ∷ zs) = let (ws, x, e) = last_block y zs in (z ∷ ws, x, ap (λ l. z ∷ l) e)

-- On a heap of blocks that lie end to end, `kfree` of the pointer to any of them, the first and the last
-- included, marks it free, joins it with the block behind it if there is one that is free, and then with
-- the block before it if there is one that is free; every other block stays as it is, and the blocks
-- still lie end to end.
pub kfree-join :
    (c : Cells) (zs : List Block) (b : Block) (ys : List Block)
    → IsHeap c (zs ++ (b ∷ ys))
    → IsHeap (kfree c (end_of heap_start zs + hdr_size)) (released zs b ys)
unfolding released
kfree-join c [] b ys h = kfree-first c b ys h
kfree-join c (z ∷ zs) b ys h =
    let (ws, x, e) = last_block z zs in
    subst (λ l. IsHeap (kfree c (end_of heap_start l + hdr_size)) (released l b ys)) (sym e)
      (rw (released-behind ws x b ys, end_of-behind heap_start ws x)
        (kfree-behind c ws x b ys (
          subst (λ l. IsHeap c l) (append_assoc ws (x ∷ []) (b ∷ ys))
            (subst (λ l. IsHeap c (l ++ (b ∷ ys))) e h))))
