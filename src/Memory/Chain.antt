-- ===== src/Memory/Chain.antt =====
-- The heap as a list of blocks that lie end to end, from `heap_start` to `heap_end`.
use new_attempt.Base.{
  inr, inl, ◌⊎◌, ◌≢◌, Bool, List, [], ap, arith, refl, ℕ, ◌++◌, ◌+◌, ◌<◌, ◌∙◌, ◌∷◌, ◌≡◌, ◌≤◌,
}
use new_attempt.Memory.{Header, set_prev, write, block_magic, heap_start, heap_end, Cells, hdr_size}

pub record Block : Type 0 where
  pub bytes : ℕ
  pub taken : Bool

abbrev pub block : ℕ → Bool → Block
block n t = record { bytes = n; taken = t }

-- The address behind a block at `a`.
abbrev pub behind : ℕ → Block → ℕ
behind a b = a + hdr_size + b.bytes

-- The `next` pointer to the blocks that start at `a`.
abbrev pub link : ℕ → List Block → ℕ
link a [] = 0
link a (b ∷ bs) = a

pub write-eq : (c : Cells) (p : ℕ) (v : Header) → write c p v p ≡ v
unfolding write
write-eq c p v = ground arith

pub write-ne : (c : Cells) (p q : ℕ) (v : Header) → q ≢ p → write c p v q ≡ c q
unfolding write
write-ne c p q v h = ground arith

pub set_prev-ne : (c : Cells) (p q r : ℕ) → (p ≢ 0 → q ≢ p) → set_prev c p r q ≡ c q
unfolding set_prev write
set_prev-ne c p q r h = ground (arith, h)

pub set_prev-eq :
    (c : Cells) (p q r : ℕ) → p ≡ q → q ≢ 0 → set_prev c p r q ≡ record (c q) { prev = r }
unfolding set_prev write
set_prev-eq c p q r e h = ground arith

-- From `a` on, behind the block at `prev`, the headers describe the blocks and reach `heap_end`.
abbrev pub Chain : Cells → ℕ → ℕ → List Block → Type 0
Chain c prev a [] = a ≡ heap_end
Chain c prev a (b ∷ bs) =
    (c a ≡ record {
      magic = block_magic;
      size = b.bytes;
      used = b.taken;
      next = link (behind a b) bs;
      prev = prev;
    })
    × Chain c a (behind a b) bs

-- The whole heap.
abbrev pub IsHeap : Cells → List Block → Type 0
IsHeap c bs = Chain c 0 heap_start bs

-- The address behind the blocks `xs`, which start at `a`.
abbrev pub end_of : ℕ → List Block → ℕ
end_of a [] = a
end_of a (x ∷ xs) = end_of (behind a x) xs

-- The address of the last of the blocks, or `prev`.
abbrev pub last_of : ℕ → ℕ → List Block → ℕ
last_of prev a [] = prev
last_of prev a (x ∷ xs) = last_of a (behind a x) xs

abbrev pub SameBelow : ℕ → Cells → Cells → Type 0
SameBelow a c d = (p : ℕ) → p < a → d p ≡ c p

pub end_of-le : (a : ℕ) (xs : List Block) → a ≤ end_of a xs
end_of-le a [] = omega arith
end_of-le a (x ∷ xs) = omega (arith, end_of-le (behind a x) xs)

pub Chain-le : (c : Cells) (prev a : ℕ) (bs : List Block) → Chain c prev a bs → a ≤ heap_end
Chain-le c prev a [] h = omega arith
Chain-le c prev a (b ∷ bs) h = omega (arith, Chain-le c a (behind a b) bs h.1)

-- Headers from `a` on are all that a chain from `a` reads.
pub Chain-above :
    (c d : Cells) (prev a : ℕ) (bs : List Block)
    → ((p : ℕ) → a ≤ p → d p ≡ c p)
    → Chain c prev a bs
    → Chain d prev a bs
Chain-above c d prev a [] same h = h
Chain-above c d prev a (b ∷ bs) same h = (
  same a (omega arith) ∙ h.0,
  Chain-above c d a (behind a b) bs (λ p q. same p (omega arith)) h.1,
)

pub Chain-drop :
    (c : Cells) (prev a : ℕ) (xs ys : List Block)
    → Chain c prev a (xs ++ ys)
    → Chain c (last_of prev a xs) (end_of a xs) ys
Chain-drop c prev a [] ys h = h
Chain-drop c prev a (x ∷ xs) ys h = Chain-drop c a (behind a x) xs ys h.1

link-append :
    (a : ℕ) (xs ys zs : List Block)
    → link (end_of a xs) ys ≡ link (end_of a xs) zs
    → link a (xs ++ ys) ≡ link a (xs ++ zs)
link-append a [] ys zs h = h
link-append a (x ∷ xs) ys zs h = refl

-- The blocks from some address on may be replaced, if the headers below it stay and the first block
-- stays where it is.
pub Chain-replace :
    (c d : Cells) (prev a : ℕ) (xs ys zs : List Block)
    → Chain c prev a (xs ++ ys)
    → SameBelow (end_of a xs) c d
    → link (end_of a xs) ys ≡ link (end_of a xs) zs
    → Chain d (last_of prev a xs) (end_of a xs) zs
    → Chain d prev a (xs ++ zs)
Chain-replace c d prev a [] ys zs h same l k = k
Chain-replace c d prev a (x ∷ xs) ys zs h same l k = (
  same a (omega (arith, end_of-le (behind a x) xs))
      ∙ h.0
      ∙ ap
          (λ n. record {
            magic = block_magic;
            size = x.bytes;
            used = x.taken;
            next = n;
            prev = prev;
          })
          (link-append (behind a x) xs ys zs l),
  Chain-replace c d a (behind a x) xs ys zs h.1 same l k,
)

-- A chain whose first block is given another `prev` pointer.
pub Chain-relink :
    (c d : Cells) (prev r a : ℕ) (bs : List Block)
    → Chain c prev a bs
    → ((p : ℕ) → a < p → d p ≡ c p)
    → (link a bs ≡ a → d a ≡ record (c a) { prev = r })
    → Chain d r a bs
Chain-relink c d prev r a [] h above here = h
Chain-relink c d prev r a (b ∷ bs) h above here = (
  here refl ∙ ap (λ (v : Header). record v { prev = r }) h.0,
  Chain-above c d a (behind a b) bs (λ p q. above p (omega arith)) h.1,
)

pub link-cases : (a : ℕ) (bs : List Block) → ((bs ≡ []) × (link a bs ≡ 0)) ⊎ (link a bs ≡ a)
link-cases a [] = inl (refl, refl)
link-cases a (b ∷ bs) = inr refl

pub Chain-at :
    (c : Cells) (prev a e : ℕ) (bs : List Block) → a ≡ e → Chain c prev a bs → Chain c prev e bs
Chain-at c prev a e bs p h = rw (← p) h
