-- ===== src/Base/Table.antt =====
-- Fixed tables of slots: the loop that stops at the first slot with a property, and how many slots
-- have it.
use Prim.Native.Nat.{ℕ, zero, suc, ◌+◌, ◌<◌, ◌≤◌}
use mathlib.Core.Path.{◌≡◌, refl}
use mathlib.Core.Logic.{inl, inr}
use mathlib.Core.Bool.{Bool, true, false, ◌&&◌}
use mathlib.Core.List.{◌++◌, List, [], ◌∷◌}
use mathlib.Core.Option.{Option, none, some}
use native.Mathlib.Omega.{arith}
use new_attempt.Base.Tests.{if◌then◌else◌, Option-cases}
use new_attempt.Base.Lists.{drop, length, get_or, set, replicate}

-- How much a slot adds to a count.
abbrev pub weight : Bool → ℕ
weight b = if b then 1 else 0

abbrev pub next_index : Option ℕ → Option ℕ
next_index none = none
next_index (some i) = some (suc i)

module _ {ℓ} {A : Type ℓ} where
  -- `for (i = 0; i < n; i++) if (p(table[i])) return i;`
  unfoldable pub find_index : (A → Bool) → List A → Option ℕ
  find_index p [] = none
  find_index p (x ∷ xs) = if p x then some 0 else next_index (find_index p xs)

  unfoldable pub count : (A → Bool) → List A → ℕ
  count p [] = 0
  count p (x ∷ xs) = (if p x then 1 else 0) + count p xs

  -- A predicate of every slot.
  abbrev pub All {κ} : (A → Type κ) → List A → Type κ
  All P [] = Unit
  All P (x ∷ xs) = P x × All P xs

module _ {ℓ} {A : Type ℓ} (p : A → Bool) where
  pub find_index-none : (l : List A) → find_index p l ≡ none → count p l ≡ 0
  unfolding find_index count
  find_index-none [] h = refl
  find_index-none (x ∷ xs) h = ground (arith, find_index-none xs)

  pub find_index-none_of_count : (l : List A) → count p l ≡ 0 → find_index p l ≡ none
  unfolding find_index count
  find_index-none_of_count [] h = refl
  find_index-none_of_count (x ∷ xs) h = ground (arith, find_index-none_of_count xs)

  pub find_index-some_of_count : (l : List A) → 0 < count p l → (i : ℕ) × (find_index p l ≡ some i)
  find_index-some_of_count l h = elim (Option-cases (find_index p l)) [
    | inl e ↦ absurd (omega (arith, find_index-none l e))
    | inr e ↦ e
  ]

  -- The index found is in range and its slot has the property.
  pub find_index_lt : (l : List A) (i : ℕ) → find_index p l ≡ some i → i < length l
  unfolding find_index
  find_index_lt [] i h = cc
  find_index_lt (x ∷ xs) zero h = omega arith
  find_index_lt (x ∷ xs) (suc i) h = ground (arith, find_index_lt xs i)

  pub find_index_holds :
      (l : List A) (i : ℕ) (d : A) → find_index p l ≡ some i → p (get_or l i d) ≡ true
  unfolding find_index
  find_index_holds [] i d h = cc
  find_index_holds (x ∷ xs) zero d h = ground arith
  find_index_holds (x ∷ xs) (suc i) d h = ground (arith, find_index_holds xs i d)

  -- No slot before it has the property.
  pub find_index_first :
      (l : List A) (i j : ℕ) (d : A) → find_index p l ≡ some i → j < i → p (get_or l j d) ≡ false
  unfolding find_index
  find_index_first [] i j d h lt = cc
  find_index_first (x ∷ xs) zero j d h lt = absurd (omega arith)
  find_index_first (x ∷ xs) (suc i) zero d h lt = ground arith
  find_index_first (x ∷ xs) (suc i) (suc j) d h lt = ground (arith, find_index_first xs i j d)

  pub find_index-none_at :
      (l : List A) (j : ℕ) (d : A) → find_index p l ≡ none → j < length l → p (get_or l j d) ≡ false
  unfolding find_index
  find_index-none_at [] j d h lt = absurd (omega arith)
  find_index-none_at (x ∷ xs) zero d h lt = ground arith
  find_index-none_at (x ∷ xs) (suc j) d h lt = ground (arith, find_index-none_at xs j d)

  -- Writing a slot that the search sees as before changes no search.
  pub find_index-set_same :
      (l : List A) (i : ℕ) (v d : A)
      → p v ≡ p (get_or l i d)
      → find_index p (set l i v) ≡ find_index p l
  unfolding find_index
  find_index-set_same [] i v d h = refl
  find_index-set_same (x ∷ xs) zero v d h = ground arith
  find_index-set_same (x ∷ xs) (suc i) v d h = ground (arith, find_index-set_same xs i v d)

  -- Writing the only slot with the property makes it the one found.
  pub find_index-set_new :
      (l : List A) (i : ℕ) (v : A)
      → p v ≡ true
      → find_index p l ≡ none
      → i < length l
      → find_index p (set l i v) ≡ some i
  unfolding find_index
  find_index-set_new [] i v pv h lt = absurd (omega arith)
  find_index-set_new (x ∷ xs) zero v pv h lt = ground arith
  find_index-set_new (x ∷ xs) (suc i) v pv h lt = ground (arith, find_index-set_new xs i v pv)

  pub count-set :
      (l : List A) (i : ℕ) (v d : A)
      → i < length l
      → count p (set l i v) + (if p (get_or l i d) then 1 else 0)
        ≡ count p l + (if p v then 1 else 0)
  unfolding count
  count-set [] i v d lt = absurd (omega arith)
  count-set (x ∷ xs) zero v d lt = omega arith
  count-set (x ∷ xs) (suc i) v d lt = omega (arith, count-set xs i v d)

  pub count-le-length : (l : List A) → count p l ≤ length l
  unfolding count
  count-le-length [] = omega arith
  count-le-length (x ∷ xs) = ground (arith, count-le-length xs)

module _ {ℓ κ} {A : Type ℓ} (P : A → Type κ) where
  pub All-replicate : (n : ℕ) (a : A) → P a → All P (replicate n a)
  All-replicate zero a h = tt
  All-replicate (suc n) a h = (h, All-replicate n a h)

  pub All-append : (k l : List A) → All P k → All P l → All P (k ++ l)
  All-append [] l h i = i
  All-append (x ∷ k) l h i = (h.0, All-append k l h.1 i)

  pub All-drop : (n : ℕ) (l : List A) → All P l → All P (drop n l)
  All-drop zero l h = h
  All-drop (suc n) [] h = h
  All-drop (suc n) (x ∷ l) h = All-drop n l h.1

  pub All-set : (l : List A) (i : ℕ) (v : A) → All P l → P v → All P (set l i v)
  All-set [] i v h pv = h
  All-set (x ∷ xs) zero v h pv = (pv, h.1)
  All-set (x ∷ xs) (suc i) v h pv = (h.0, All-set xs i v h.1 pv)

  pub All-get_or_default : (l : List A) (i : ℕ) (d : A) → All P l → P d → P (get_or l i d)
  All-get_or_default [] i d h pd = pd
  All-get_or_default (x ∷ xs) zero d h pd = h.0
  All-get_or_default (x ∷ xs) (suc i) d h pd = All-get_or_default xs i d h.1 pd

  pub All-get_or : (l : List A) (i : ℕ) (d : A) → All P l → i < length l → P (get_or l i d)
  All-get_or [] i d h lt = absurd (omega arith)
  All-get_or (x ∷ xs) zero d h lt = h.0
  All-get_or (x ∷ xs) (suc i) d h lt = All-get_or xs i d h.1 (omega arith)

-- A check of the numbers below a bound by evaluation.
unfoldable pub holds_below : ℕ → (ℕ → Bool) → Bool
holds_below zero test = true
holds_below (suc bound) test = holds_below bound test && test bound

pub holds_below_at :
    (test : ℕ → Bool) (i bound : ℕ) → i < bound → holds_below bound test ≡ true → test i ≡ true
unfolding holds_below
holds_below_at test i zero inside checked = absurd (omega arith)
holds_below_at test i (suc bound) inside checked = ground (arith, holds_below_at test i bound)
