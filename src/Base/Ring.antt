-- ===== src/Base/Ring.antt =====
-- A circular buffer read as a queue: `n` items of `buf` from index `h` on, wrapping at `m`.
use Prim.Native.Nat.{ℕ, zero, suc, ◌+◌, ◌-◌, ◌%◌, ◌<◌}
use mathlib.Core.Path.{◌≡◌, refl, ap, ap₂, ◌∙◌, sym}
use mathlib.Core.Logic.{◌≢◌, inl, inr}
use mathlib.Core.List.{List, [], ◌∷◌, ◌++◌}
use native.Mathlib.Omega.{arith}
use native.Mathlib.Nat.{add-zero, mod-eq_of_lt, mod-eq-sub-mod, mod-add-mod}
use new_attempt.Base.Tests.{ltb, Bool-cases}
use new_attempt.Base.Lists.{length, get_or, set, get_or-set_self, get_or-set_ne}

module _ {ℓ} {A : Type ℓ} (d : A) (m : ℕ) where
  unfoldable pub ring_items : List A → ℕ → ℕ → List A
  ring_items buf h zero = []
  ring_items buf h (suc n) = get_or buf h d ∷ ring_items buf ((h + 1) % m) n

-- From an index the ring comes back to it only after `m` steps.
around-ne : (m h k : ℕ) → h < m → 0 < k → k < m → (h + k) % m ≢ h
around-ne m h k hh pk hk e = elim (Bool-cases (ltb (h + k) m)) [
  | inl lt ↦ absurd (ground (arith, mod-eq_of_lt {n = h + k} {m = m}))
  | inr ge ↦
      absurd
        (ground (arith, mod-eq-sub-mod {n = h + k} {m = m}, mod-eq_of_lt {n = h + k - m} {m = m}))
]

step-around : (m h n : ℕ) → ((h + 1) % m + n) % m ≡ (h + suc n) % m
step-around m h n = mod-add-mod (h + 1) m n ∙ ap (λ k. k % m) (omega arith)

module _ {ℓ} {A : Type ℓ} (d : A) (m : ℕ) where
  -- Writing the slot behind the last item adds that item at the end.
  pub ring_items-push :
      (n : ℕ) (buf : List A) (h i : ℕ) (v : A)
      → length buf ≡ m
      → h < m
      → n < m
      → i ≡ (h + n) % m
      → ring_items d m (set buf i v) h (suc n) ≡ ring_items d m buf h n ++ (v ∷ [])
  unfolding ring_items
  ring_items-push zero buf h i v size hh hn e =
      let here : i ≡ h = e ∙ ap (λ k. k % m) (add-zero h) ∙ mod-eq_of_lt hh in
      ap (λ x. x ∷ []) (rw here (get_or-set_self buf h v d (omega arith)))
  ring_items-push (suc n) buf h i v size hh hn e =
      ap₂ ◌∷◌
        (get_or-set_ne buf i h v d (λ k. around-ne m h (suc n) hh (omega arith) hn (sym e ∙ k)))
        (ring_items-push n buf ((h + 1) % m) i v size (omega arith) (omega arith)
          (e ∙ sym (step-around m h n)))

  -- Taking the slot at the head leaves the items behind it.
  pub ring_items-pop :
      (buf : List A) (h n : ℕ)
      → n ≢ 0
      → ring_items d m buf h n ≡ get_or buf h d ∷ ring_items d m buf ((h + 1) % m) (n - 1)
  unfolding ring_items
  ring_items-pop buf h zero p = absurd (p refl)
  ring_items-pop buf h (suc n) p =
      ap (λ k. get_or buf h d ∷ ring_items d m buf ((h + 1) % m) k) (omega arith)

  pub length-ring_items : (buf : List A) (h n : ℕ) → length (ring_items d m buf h n) ≡ n
  unfolding ring_items
  length-ring_items buf h zero = refl
  length-ring_items buf h (suc n) = ap suc (length-ring_items buf ((h + 1) % m) n)
