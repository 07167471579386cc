-- ===== src/Base/Slices.antt =====
-- Parts of a buffer: what `drop` and `take` see of a part that is written over it.
use new_attempt.Base.Lists.{length, get_or, take, drop, set}
use Prim.Native.Nat.{ℕ, zero, suc, ◌+◌, ◌<◌, ◌≤◌}
use mathlib.Core.Path.{◌≡◌, refl, ap, sym, ◌∙◌}
use mathlib.Core.List.{List, [], ◌∷◌, ◌++◌}
use native.Mathlib.Omega.{arith}

module _ {ℓ} {A : Type ℓ} where
  -- The bytes of `part` written over the first ones of a buffer, none past its end.
  unfoldable pub overwrite : List A → List A → List A
  overwrite xs [] = xs
  overwrite [] (p ∷ part) = []
  overwrite (x ∷ xs) (p ∷ part) = p ∷ overwrite xs part

  -- `part` written at an offset.
  unfoldable pub put_at : List A → ℕ → List A → List A
  unfolding overwrite
  put_at xs zero part = overwrite xs part
  put_at [] (suc off) part = []
  put_at (x ∷ xs) (suc off) part = x ∷ put_at xs off part

module _ {ℓ} {A : Type ℓ} where
  pub get_or-drop : (k i : ℕ) (xs : List A) (d : A) → get_or (drop k xs) i d ≡ get_or xs (k + i) d
  get_or-drop zero i xs d = ap (λ j. get_or xs j d) (omega arith)
  get_or-drop (suc k) i [] d = refl
  get_or-drop (suc k) i (x ∷ xs) d = ground (arith, get_or-drop k i xs d)

  pub get_or-take : (k i : ℕ) (xs : List A) (d : A) → i < k → get_or (take k xs) i d ≡ get_or xs i d
  get_or-take zero i xs d h = absurd (omega arith)
  get_or-take (suc k) i [] d h = refl
  get_or-take (suc k) zero (x ∷ xs) d h = refl
  get_or-take (suc k) (suc i) (x ∷ xs) d h = get_or-take k i xs d (omega arith)

  pub take-take : (j k : ℕ) (xs : List A) → j ≤ k → take j (take k xs) ≡ take j xs
  take-take zero k xs h = refl
  take-take (suc j) zero xs h = absurd (omega arith)
  take-take (suc j) (suc k) [] h = refl
  take-take (suc j) (suc k) (x ∷ xs) h = ap (λ t. x ∷ t) (take-take j k xs (omega arith))

  take-overwrite :
      (xs part : List A) → length part ≤ length xs → take (length part) (overwrite xs part) ≡ part
  unfolding overwrite
  take-overwrite xs [] h = refl
  take-overwrite [] (p ∷ part) h = absurd (omega arith)
  take-overwrite (x ∷ xs) (p ∷ part) h = ap (λ t. p ∷ t) (take-overwrite xs part (omega arith))

  drop-overwrite :
      (xs part : List A) (i : ℕ) → length part ≤ i → drop i (overwrite xs part) ≡ drop i xs
  unfolding overwrite
  drop-overwrite xs [] i h = refl
  drop-overwrite [] (p ∷ part) i h = refl
  drop-overwrite (x ∷ xs) (p ∷ part) zero h = absurd (omega arith)
  drop-overwrite (x ∷ xs) (p ∷ part) (suc i) h = drop-overwrite xs part i (omega arith)

  length-overwrite : (xs part : List A) → length (overwrite xs part) ≡ length xs
  unfolding overwrite
  length-overwrite xs [] = refl
  length-overwrite [] (p ∷ part) = refl
  length-overwrite (x ∷ xs) (p ∷ part) = ap suc (length-overwrite xs part)

  -- The part itself.
  pub take-drop-put_at :
      (xs : List A) (off : ℕ) (part : List A)
      → off + length part ≤ length xs
      → take (length part) (drop off (put_at xs off part)) ≡ part
  unfolding put_at
  take-drop-put_at xs zero part h = take-overwrite xs part (omega arith)
  take-drop-put_at [] (suc off) part h = absurd (omega arith)
  take-drop-put_at (x ∷ xs) (suc off) part h = take-drop-put_at xs off part (omega arith)

  -- Bytes before it.
  pub take-drop-put_at_before :
      (xs : List A) (off i k : ℕ) (part : List A)
      → i + k ≤ off
      → take k (drop i (put_at xs off part)) ≡ take k (drop i xs)
  unfolding put_at
  take-drop-put_at_before xs off i zero part h = refl
  take-drop-put_at_before xs zero i (suc k) part h = absurd (omega arith)
  take-drop-put_at_before [] (suc off) i (suc k) part h = refl
  take-drop-put_at_before (x ∷ xs) (suc off) zero (suc k) part h =
      ap (λ t. x ∷ t) (take-drop-put_at_before xs off 0 k part (omega arith))
  take-drop-put_at_before (x ∷ xs) (suc off) (suc i) (suc k) part h =
      take-drop-put_at_before xs off i (suc k) part (omega arith)

  -- Bytes behind it.
  pub drop-put_at_after :
      (xs : List A) (off i : ℕ) (part : List A)
      → off + length part ≤ i
      → drop i (put_at xs off part) ≡ drop i xs
  unfolding put_at
  drop-put_at_after xs zero i part h = drop-overwrite xs part i (omega arith)
  drop-put_at_after [] (suc off) i part h = refl
  drop-put_at_after (x ∷ xs) (suc off) zero part h = absurd (omega arith)
  drop-put_at_after (x ∷ xs) (suc off) (suc i) part h =
      drop-put_at_after xs off i part (omega arith)

  pub length-put_at :
      (xs : List A) (off : ℕ) (part : List A) → length (put_at xs off part) ≡ length xs
  unfolding put_at
  length-put_at xs zero part = length-overwrite xs part
  length-put_at [] (suc off) part = refl
  length-put_at (x ∷ xs) (suc off) part = ap suc (length-put_at xs off part)

suc_add_one : (i : ℕ) → suc i + 1 ≡ suc (i + 1)
suc_add_one i = omega arith

module _ {ℓ} {A : Type ℓ} where
  -- The entry at `i` comes before those from `i + 1` on.
  pub drop_step :
      (i : ℕ) (xs : List A) (d : A) → i < length xs → drop i xs ≡ get_or xs i d ∷ drop (i + 1) xs
  drop_step i [] d h = absurd (omega arith)
  drop_step zero (x ∷ xs) d h = refl
  drop_step (suc i) (x ∷ xs) d h =
      drop_step i xs d (omega arith)
      ∙ ap (λ k. get_or xs i d ∷ drop k (x ∷ xs)) (sym (suc_add_one i))

  pub take-set :
      (i : ℕ) (xs : List A) (x : A)
      → i < length xs
      → take (i + 1) (set xs i x) ≡ take i xs ++ (x ∷ [])
  take-set i [] x h = absurd (omega arith)
  take-set zero (y ∷ xs) x h = refl
  take-set (suc i) (y ∷ xs) x h =
      ap (λ k. take k (y ∷ set xs i x)) (suc_add_one i)
      ∙ ap (λ t. y ∷ t) (take-set i xs x (omega arith))
