-- ===== src/Idt/Masks.antt =====
-- The masks of the interrupt controllers in kernel/idt.c.
use new_attempt.Base.{
  arith, ◌^◌, ◌%◌, [], ◌∷◌, ◌++◌, holds_below_at, ◌<◌, Bool, holds_below, bool_eq, not, refl, true,
  ℕ, ◌&&◌, ◌==◌, ◌||◌, ◌≡◌,
}
use new_attempt.Idt.{line_bit, line_port, Idt, irq_unmask, irq_mask, without_bit, with_bit, bit_set}

-- What masking and unmasking do to the other bit `j` of a byte, and to bit `i` itself.
keeps : ℕ → ℕ → ℕ → Bool
keeps i j m =
    bool_eq (bit_set (with_bit m i % 2 ^ 8) j) (i == j || bit_set m j)
    && bool_eq (bit_set (without_bit m i % 2 ^ 8) j) (not (i == j) && bit_set m j)

both : (a b c d : Bool) → (bool_eq a b && bool_eq c d) ≡ true → (a ≡ b) × (c ≡ d)
both a b c d h = ground arith

all_keep : holds_below 8 (λ i. holds_below 8 (λ j. holds_below 256 (keeps i j))) ≡ true
unfolding holds_below keeps with_bit without_bit
all_keep = refl

keeps_at : (i j m : ℕ) → i < 8 → j < 8 → m < 256 → keeps i j m ≡ true
keeps_at i j m hi hj hm = holds_below_at (keeps i j) m 256 hm (
    holds_below_at (λ k. holds_below 256 (keeps i k)) j 8 hj
      (holds_below_at (λ l. holds_below 8 (λ k. holds_below 256 (keeps l k))) i 8 hi all_keep))

pub bits :
    (i j m : ℕ)
    → i < 8
    → j < 8
    → m < 256
    → (bit_set (with_bit m i % 2 ^ 8) j ≡ (i == j || bit_set m j))
      × (bit_set (without_bit m i % 2 ^ 8) j ≡ (not (i == j) && bit_set m j))
unfolding keeps
bits i j m hi hj hm = both _ _ _ _ (keeps_at i j m hi hj hm)

-- For a line below 16 and a mask `m` of 8 bits read from its controller, `irq_mask` writes a byte to that
-- controller that has the line's bit set and every other bit as in `m`, and `irq_unmask` one that has
-- it clear and every other bit as in `m`.
pub irq_mask_lem :
    (s : Idt) (m irq j : ℕ)
    → m < 256
    → irq < 16
    → j < 8
    → ((a : ℕ) × ((irq_mask s m irq).outs ≡ s.outs ++ ((line_port irq, a) ∷ []))
        × (bit_set a j ≡ (line_bit irq == j || bit_set m j)))
      × ((b : ℕ) × ((irq_unmask s m irq).outs ≡ s.outs ++ ((line_port irq, b) ∷ []))
          × (bit_set b j ≡ (not (line_bit irq == j) && bit_set m j)))
unfolding irq_mask irq_unmask
irq_mask_lem s m irq j hm hi hj =
    let (masked, unmasked) = bits (line_bit irq) j m (ground arith) hj hm in
    (
      (with_bit m (line_bit irq) % 2 ^ 8, refl, masked),
      (without_bit m (line_bit irq) % 2 ^ 8, refl, unmasked),
    )
