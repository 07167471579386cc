-- ===== src/Memory/Free.antt =====
-- `kfree` marks a block free and joins it with the free blocks beside it.
use new_attempt.Base.{
  Bool-cases, List, [], ap, arith, false, if◌then◌else◌, inl, inr, refl, true, ℕ, ◌%◌, ◌+◌, ◌<◌,
  ◌==◌, ◌^◌, ◌∙◌, ◌∷◌, ◌≡◌, ◌≢◌,
}
use new_attempt.Memory.Chain.{
  set_prev-eq, Chain-relink, Chain-at, write-eq, write-ne, SameBelow, link-cases, set_prev-ne, link,
  behind, Chain-le, Chain, block, Block,
}
use new_attempt.Memory.{
  merge_prev, block_magic, merge_next, Header, write, set_prev, hdr_size, Cells,
}
use mathlib.Core.Path.{ap₂}

abbrev pub freed : Block → Block
freed b = block b.bytes false

-- A block takes in the block behind it, if that one is free.
unfoldable pub absorb : Block → List Block → List Block
absorb b [] = b ∷ []
absorb b (y ∷ ys) =
    if y.taken then b ∷ y ∷ ys else block (b.bytes + (hdr_size + y.bytes)) b.taken ∷ ys

-- The blocks from `x` on after the block `b` behind it is freed.
unfoldable pub join : Block → List Block → List Block
join x r = if x.taken then x ∷ r else absorb x r

module _ (c : Cells) (prev a : ℕ) (b y : Block) (ys : List Block)
    (h : Chain c prev a (b ∷ y ∷ ys)) where
  sizes : b.bytes + y.bytes < 2 ^ 31
  sizes = omega (arith, Chain-le c (behind a b) (behind (behind a b) y) ys h.1.1)

  -- The header and the cells that joining the two blocks leaves.
  abbrev merged : Header
  merged = record {
    magic = block_magic;
    size = (b.bytes + (hdr_size + y.bytes)) % 2 ^ 32;
    used = b.taken;
    next = link (behind (behind a b) y) ys;
    prev = prev;
  }

  abbrev joined : Cells
  joined = set_prev (write c a merged) (link (behind (behind a b) y) ys) a

  alive : (behind a b == 0) ≡ false
  alive = ground arith

  merge_next-taken : y.taken ≡ true → merge_next c a ≡ c
  unfolding merge_next
  merge_next-taken t = rw (h.0, h.1.0, alive, t)

  merge_next-free : y.taken ≡ false → merge_next c a ≡ joined
  unfolding merge_next
  merge_next-free t = rw (h.0, h.1.0, alive, t)

  rest_at : ℕ
  rest_at = behind (behind a b) y

  joined-ne : (p : ℕ) → p ≢ a → p ≢ behind (behind a b) y → joined p ≡ c p
  joined-ne p pa pr =
      set_prev-ne _ (link (behind (behind a b) y) ys) p a (λ z e.
        elim (link-cases (behind (behind a b) y) ys) [ inl (_, l) ↦ z l | inr l ↦ pr (e ∙ l) ])
      ∙ write-ne c a p _ pa

  joined-here : joined a ≡ merged
  joined-here =
      set_prev-ne _ (link (behind (behind a b) y) ys) a a (λ z e.
        elim (link-cases (behind (behind a b) y) ys) [
          | inl (_, l) ↦ z l
          | inr l ↦ absurd (omega (arith, e ∙ l))
        ])
      ∙ write-eq c a _

  joined-Chain : Chain joined prev a (block (b.bytes + (hdr_size + y.bytes)) b.taken ∷ ys)
  joined-Chain =
      let e : behind (behind a b) y ≡ a + hdr_size + (b.bytes + (hdr_size + y.bytes)) =
        omega arith in
      let m : (b.bytes + (hdr_size + y.bytes)) % 2 ^ 32 ≡ b.bytes + (hdr_size + y.bytes) =
        omega (arith, sizes) in
      (
        joined-here
            ∙ ap₂
                (λ s k. record {
                  magic = block_magic;
                  size = s;
                  used = b.taken;
                  next = link k ys;
                  prev = prev;
                })
                m e,
        Chain-at joined a _ _ ys e (
            Chain-relink c joined (behind a b) a (behind (behind a b) y) ys h.1.1
              (λ p q. joined-ne p (omega arith) (omega arith))
              (λ l.
                set_prev-eq _ _ (behind (behind a b) y) a l (omega arith)
                ∙ ap (λ (v : Header). record v { prev = a }) (write-ne c a _ _ (omega arith)))),
      )

merge_next-last :
    (c : Cells) (prev a : ℕ) (b : Block) → Chain c prev a (b ∷ []) → merge_next c a ≡ c
unfolding merge_next
merge_next-last c prev a b h = rw h.0

pub absorb-taken : (b y : Block) (ys : List Block) → y.taken ≡ true → absorb b (y ∷ ys) ≡ b ∷ y ∷ ys
unfolding absorb
absorb-taken b y ys t = ground arith

pub absorb-free :
    (b y : Block) (ys : List Block)
    → y.taken ≡ false
    → absorb b (y ∷ ys) ≡ block (b.bytes + (hdr_size + y.bytes)) b.taken ∷ ys
unfolding absorb
absorb-free b y ys t = ground arith

pub absorb-nil : (b : Block) → absorb b [] ≡ b ∷ []
unfolding absorb
absorb-nil b = refl

-- Joining with the block behind, whatever stands there.
pub merge_next-Chain :
    (c : Cells) (prev a : ℕ) (b : Block) (ys : List Block)
    → Chain c prev a (b ∷ ys)
    → Chain (merge_next c a) prev a (absorb b ys) × SameBelow a c (merge_next c a)
merge_next-Chain c prev a b [] h = rw (merge_next-last c prev a b h, absorb-nil) (h, λ p q. refl)
merge_next-Chain c prev a b (y ∷ ys) h = elim (Bool-cases y.taken) [
  | inl t ↦ rw (merge_next-taken c prev a b y ys h t, absorb-taken b y ys t) (h, λ p q. refl)
  | inr t ↦
      rw (merge_next-free c prev a b y ys h t, absorb-free b y ys t)
        (
          joined-Chain c prev a b y ys h,
          λ p q. joined-ne c prev a b y ys h p (omega arith) (omega arith),
        )
]

-- The first block keeps its place and its mark.
pub absorb-head :
    (b : Block) (ys : List Block) → (n : ℕ) × (r : List Block) × (absorb b ys ≡ block n b.taken ∷ r)
unfolding absorb
absorb-head b [] = (b.bytes, [], refl)
absorb-head b (y ∷ ys) = elim (Bool-cases y.taken) [
  | inl t ↦ (b.bytes, y ∷ ys, absorb-taken b y ys t)
  | inr t ↦ (b.bytes + (hdr_size + y.bytes), ys, absorb-free b y ys t)
]

pub join-taken : (x : Block) (r : List Block) → x.taken ≡ true → join x r ≡ x ∷ r
unfolding join
join-taken x r t = ground arith

pub join-free : (x : Block) (r : List Block) → x.taken ≡ false → join x r ≡ absorb x r
unfolding join
join-free x r t = ground arith

module _ (c : Cells) (prev a : ℕ) (pos_a : 0 < a) where
  -- With the block before free, the second step of `kfree` joins as the first does from there.
  merge_prev-merge_next :
      (x b : Block) (ys : List Block)
      → Chain c prev a (x ∷ b ∷ ys)
      → x.taken ≡ false
      → b.taken ≡ false
      → merge_prev c (behind a x) ≡ merge_next c a
  unfolding merge_prev merge_next
  merge_prev-merge_next x b ys h t u =
      let here : (a == 0) ≡ false = ground arith in
      let there : (behind a x == 0) ≡ false = ground arith in
      rw (h.1.0, h.0, h.1.0, here, there, t, u)

  merge_prev-taken :
      (x b : Block) (ys : List Block)
      → Chain c prev a (x ∷ b ∷ ys)
      → x.taken ≡ true
      → merge_prev c (behind a x) ≡ c
  unfolding merge_prev
  merge_prev-taken x b ys h t =
      let here : (a == 0) ≡ false = ground arith in rw (h.1.0, h.0, here, t)

  pub merge_prev-join :
      (x b : Block) (ys : List Block)
      → Chain c prev a (x ∷ b ∷ ys)
      → b.taken ≡ false
      → Chain (merge_prev c (behind a x)) prev a (join x (b ∷ ys))
        × SameBelow a c (merge_prev c (behind a x))
  unfolding join
  merge_prev-join x b ys h u = elim (Bool-cases x.taken) [
    | inl t ↦ rw (merge_prev-taken x b ys h t, join-taken x (b ∷ ys) t) (h, λ p q. refl)
    | inr t ↦
        rw (merge_prev-merge_next x b ys h t u, join-free x (b ∷ ys) t)
          (merge_next-Chain c prev a x (b ∷ ys) h)
  ]

-- With no block before, the second step does nothing.
pub merge_prev-first :
    (c : Cells) (a : ℕ) (b : Block) (ys : List Block) → Chain c 0 a (b ∷ ys) → merge_prev c a ≡ c
unfolding merge_prev
merge_prev-first c a b ys h = rw h.0
