-- ===== src/Memory/Alloc.antt =====
-- `kmalloc` takes the first free block that is large enough, and splits it.
use new_attempt.Base.{
  subst, sym, ◌*◌, ==-ne, ◌↔◌, count, Bool, zero, ◌==◌, suc, some, length, Bool-cases, ap, List, [],
  arith, false, if◌then◌else◌, inl, inr, leb, not, refl, true, ℕ, ◌%◌, ◌&&◌, ◌++◌, ◌+◌, ◌-◌, ◌<◌,
  ◌^◌, ◌∙◌, ◌∷◌, ◌≡◌, ◌≢◌, ◌≤◌,
}
use new_attempt.Memory.Chain.{
  Chain-at, IsHeap, SameBelow, Chain-above, set_prev-eq, write-eq, Chain-relink, link-cases,
  set_prev-ne, write-ne, link, Chain-le, block, Chain, behind, Block,
}
use new_attempt.Memory.{
  heap_size, heap_start, memory_init, align8, kmalloc, kmalloc_loop, take_block, write, Header,
  block_magic, split_block, hdr_size, Cells,
}

-- What becomes of a free block that `n` bytes are taken from.
unfoldable pub split : ℕ → Block → List Block
split n b =
    if leb (n + hdr_size + 8) b.bytes
    then block n true ∷ block (b.bytes - n - hdr_size) false ∷ []
    else block b.bytes true ∷ []

-- First fit among the blocks from `a` on: the pointer, or 0, and the blocks afterwards.
unfoldable pub first_fit : ℕ → ℕ → List Block → ℕ × List Block
first_fit n a [] = (0, [])
first_fit n a (b ∷ bs) =
    let (p, bs') = first_fit n (behind a b) bs in
    if not b.taken && leb n b.bytes then (a + hdr_size, split n b ++ bs) else (p, b ∷ bs')

module _ (c : Cells) (prev a n : ℕ) (b : Block) (bs : List Block) (h : Chain c prev a (b ∷ bs))
    (fits : n ≤ b.bytes) where
  small : b.bytes < 2 ^ 31
  small = omega (arith, Chain-le c a (behind a b) bs h.1)

  nx : ℕ
  nx = a + hdr_size + n

  next-eq : (c a).next ≡ link (behind a b) bs
  next-eq = ap (λ (v : Header). v.next) h.0

  size-eq : (c a).size ≡ b.bytes
  size-eq = ap (λ (v : Header). v.size) h.0

  next-ne : (p : ℕ) → p ≢ behind a b → (c a).next ≢ 0 → p ≢ (c a).next
  next-ne p ne z e = elim (link-cases (behind a b) bs) [
    | inl (_, l) ↦ z (next-eq ∙ l)
    | inr l ↦ ne (e ∙ next-eq ∙ l)
  ]

  -- A split writes the headers at `a`, behind the bytes taken, and at the next block.
  split_block-ne :
      (p : ℕ)
      → p ≢ a
      → p ≢ a + hdr_size + n
      → ((c a).next ≢ 0 → p ≢ (c a).next)
      → split_block c a n p ≡ c p
  unfolding split_block
  split_block-ne p pa pn pl =
      write-ne _ a p _ pa ∙ set_prev-ne _ (c a).next p _ pl ∙ write-ne c _ p _ pn

  test : leb ((n + hdr_size + 8) % 2 ^ 32) (c a).size ≡ leb (n + hdr_size + 8) b.bytes
  test = ground (arith, small, size-eq)

  module _ (room : n + hdr_size + 8 ≤ b.bytes) where
    split-here : split_block c a n a ≡ record {
      magic = block_magic;
      size = n;
      used = true;
      next = a + hdr_size + n;
      prev = prev;
    }
    unfolding split_block
    split-here =
        write-eq _ a _
        ∙ ap (λ (v : Header). record v { next = a + hdr_size + n; size = n; used = true })
            (set_prev-ne _ (c a).next a _ (next-ne a (omega arith))
              ∙ write-ne c _ a _ (omega arith)
              ∙ h.0)

    split-behind : split_block c a n (a + hdr_size + n) ≡ record {
      magic = block_magic;
      size = b.bytes - n - hdr_size;
      used = false;
      next = link (behind a b) bs;
      prev = a;
    }
    unfolding split_block
    split-behind =
        write-ne _ a _ _ (omega arith)
        ∙ set_prev-ne _ (c a).next (a + hdr_size + n) _ (next-ne _ (omega arith))
        ∙ write-eq c _ _
        ∙ rw (next-eq, size-eq)

    split-rest : Chain (split_block c a n) (a + hdr_size + n) (behind a b) bs
    unfolding split_block
    split-rest =
        Chain-relink c (split_block c a n) a (a + hdr_size + n) (behind a b) bs h.1
          (λ p q. split_block-ne p (omega arith) (omega arith) (next-ne p (omega arith)))
          (λ l.
            write-ne _ a _ _ (omega arith)
            ∙ set_prev-eq _ (c a).next (behind a b) _ (next-eq ∙ l) (omega arith)
            ∙ ap (λ (v : Header). record v { prev = a + hdr_size + n })
                (write-ne c _ (behind a b) _ (omega arith)))

    split-Chain :
        Chain (split_block c a n) prev a (block n true ∷ block (b.bytes - n - hdr_size) false ∷ bs)
    split-Chain =
        let e : behind a b ≡ a + hdr_size + n + hdr_size + (b.bytes - n - hdr_size) = omega arith in
        (
          split-here,
          (
            split-behind
                ∙ ap
                    (λ k. record {
                      magic = block_magic;
                      size = b.bytes - n - hdr_size;
                      used = false;
                      next = link k bs;
                      prev = a;
                    })
                    e,
            Chain-at (split_block c a n) (a + hdr_size + n) _ _ bs e split-rest,
          ),
        )

  whole-Chain : Chain (write c a (record (c a) { used = true })) prev a (block b.bytes true ∷ bs)
  whole-Chain = (
    write-eq c a _ ∙ ap (λ (v : Header). record v { used = true }) h.0,
    Chain-above c _ a (behind a b) bs (λ p q. write-ne c a p _ (omega arith)) h.1,
  )

  -- Taking a block that is large enough gives the chain with that block split, and touches no header
  -- before it.
  take_block-Chain :
      Chain (take_block c a n) prev a (split n b ++ bs) × SameBelow a c (take_block c a n)
  unfolding take_block split
  take_block-Chain = elim (Bool-cases (leb (n + hdr_size + 8) b.bytes)) [
    | inl e ↦
        rw (test, e)
          (
            split-Chain (ground arith),
            λ p lt. split_block-ne p (omega arith) (omega arith) (next-ne p (omega arith)),
          )
    | inr e ↦ rw (test, e) (whole-Chain, λ p lt. write-ne c a p _ (omega arith))
  ]

module _ (n : ℕ) where
  first_fit-nil : (a : ℕ) (bs : List Block) → link a bs ≡ link a (first_fit n a bs).1
  unfolding first_fit split
  first_fit-nil a [] = refl
  first_fit-nil a (b ∷ bs) = ground arith

  -- The loop of `kmalloc` from a block on, with more rounds than blocks.
  kmalloc_loop-first_fit :
      (fuel : ℕ) (c : Cells) (prev a : ℕ) (bs : List Block)
      → Chain c prev a bs
      → 0 < a
      → length bs < fuel
      → (d : Cells) × (kmalloc_loop fuel c (link a bs) n ≡ some ((first_fit n a bs).0, d))
        × Chain d prev a (first_fit n a bs).1
        × SameBelow a c d
  unfolding kmalloc_loop first_fit
  kmalloc_loop-first_fit zero c prev a bs h pa lt = absurd (omega arith)
  kmalloc_loop-first_fit (suc fuel) c prev a [] h pa lt = (c, refl, h, λ p q. refl)
  kmalloc_loop-first_fit (suc fuel) c prev a (b ∷ bs) h pa lt =
      let (d, run, chain, same) =
        kmalloc_loop-first_fit fuel c a (behind a b) bs h.1 (omega arith) (omega arith) in
      let alive : (a == 0) ≡ false = ground arith in
      rw (alive, h.0)
        (elim (Bool-cases (not b.taken && leb n b.bytes)) [
          | inl fit ↦ rw fit (
            take_block c a n,
            refl,
            (take_block-Chain c prev a n b bs h (ground arith)).0,
            (take_block-Chain c prev a n b bs h (ground arith)).1,
          )
          | inr pass ↦ rw pass (
            d,
            run,
            (
              same a (omega arith)
                  ∙ h.0
                  ∙ ap
                      (λ k. record {
                        magic = block_magic;
                        size = b.bytes;
                        used = b.taken;
                        next = k;
                        prev = prev;
                      })
                      (first_fit-nil (behind a b) bs),
              chain,
            ),
            λ p q. same p (omega arith),
          )
        ])

  -- A free block with room for `n` bytes.
  unfoldable pub has_room : Block → Bool
  has_room b = not b.taken && leb n b.bytes

  first_fit-null : (a : ℕ) (bs : List Block) → ((first_fit n a bs).0 ≡ 0) ↔ (count has_room bs ≡ 0)
  unfolding first_fit count has_room
  first_fit-null a [] = (λ e. refl, λ e. refl)
  first_fit-null a (b ∷ bs) = (
    λ e. ground (arith, (first_fit-null (behind a b) bs).0),
    λ e. ground (arith, (first_fit-null (behind a b) bs).1),
  )

pub IsHeap-link : (c : Cells) (bs : List Block) → IsHeap c bs → link heap_start bs ≡ heap_start
IsHeap-link c [] h = absurd (omega arith)
IsHeap-link c (b ∷ bs) h = refl

-- On a heap of blocks that lie end to end, and with more rounds than blocks, `kmalloc` of a size
-- other than 0 returns, and does what first fit does with the rounded size: the blocks still lie end
-- to end afterwards. It returns NULL exactly when no free block has room for the rounded size.
pub kmalloc-first_fit :
    (fuel : ℕ) (c : Cells) (bs : List Block) (size : ℕ)
    → IsHeap c bs
    → length bs < fuel
    → size ≢ 0
    → (d : Cells) × (kmalloc fuel c size ≡ some ((first_fit (align8 size) heap_start bs).0, d))
      × IsHeap d (first_fit (align8 size) heap_start bs).1
      × (((first_fit (align8 size) heap_start bs).0 ≡ 0) ↔ (count (has_room (align8 size)) bs ≡ 0))
unfolding kmalloc
kmalloc-first_fit fuel c bs size h lt ne =
    let n = align8 size in
    let (d, run, chain, same) =
      kmalloc_loop-first_fit n fuel c 0 heap_start bs h (omega arith) lt in
    (
      d,
      rw (==-ne size 0 ne) (ap (λ k. kmalloc_loop fuel c k n) (sym (IsHeap-link c bs h)) ∙ run),
      chain,
      first_fit-null n heap_start bs,
    )

-- A size up to `2 ^ 32 - 8` is rounded up to the next multiple of 8.
pub align8_lem :
    (size : ℕ)
    → size ≤ 2 ^ 32 - 8
    → (size ≤ align8 size) × (align8 size < size + 8) × (align8 size % 8 ≡ 0)
unfolding align8
align8_lem size h = omega arith

-- A larger size wraps to 0.
align8_wraps : (size : ℕ) → 2 ^ 32 - 8 < size → size < 2 ^ 32 → align8 size ≡ 0
unfolding align8
align8_wraps size h k = omega arith

-- The headers that `memory_init` leaves: one free block.
pub memory_init-IsHeap :
    (c : Cells) → IsHeap (memory_init c) (block (heap_size - hdr_size) false ∷ [])
unfolding memory_init
memory_init-IsHeap c = (refl, refl)

-- On a new heap a request of more than `2 ^ 32 - 8` bytes succeeds with a block of 0 bytes.
pub kmalloc_wraps :
    (c : Cells) (size : ℕ)
    → 2 ^ 32 - 8 < size
    → size < 2 ^ 32
    → (d : Cells) × (kmalloc 2 (memory_init c) size ≡ some (heap_start + hdr_size, d))
      × IsHeap d (block 0 true ∷ block (heap_size - 2 * hdr_size) false ∷ [])
unfolding first_fit split
kmalloc_wraps c size h k =
    let e : align8 size ≡ 0 = align8_wraps size h k in
    let (d, run, chain, null) =
      kmalloc-first_fit 2 (memory_init c) (block (heap_size - hdr_size) false ∷ []) size
        (memory_init-IsHeap c) (omega arith) (omega arith) in
    (
      d,
      run
          ∙ ap (λ n. some ((first_fit n heap_start (block (heap_size - hdr_size) false ∷ [])).0, d))
              e,
      subst (λ n. IsHeap d (first_fit n heap_start (block (heap_size - hdr_size) false ∷ [])).1) e
          chain,
    )
