-- ===== src/Modules/Heartbeat.antt =====
-- The heartbeat of modules/aura_core.c.
use new_attempt.Base.{refl, ◌*◌, ◌∙◌, ◌/◌, ==-ne, ◌-◌, arith, ◌^◌, zero, ◌≡◌, ◌<◌, ◌%◌, ◌+◌, ℕ, suc}
use new_attempt.EventBus.{Bus, eventbus_publish, topic_kernel_tick}
use new_attempt.Modules.{core_tick}
use mathlib.Core.Path.{ap, ap₂}

-- `k` calls of `core_tick`, the next one number `i`; call `i` sees the tick `now i`.
unfoldable pub core_ticks : (ℕ → ℕ) → ℕ → ℕ → ℕ × Bus → ℕ × Bus
unfolding core_tick
core_ticks now zero i st = st
core_ticks now (suc k) i st = core_ticks now k (i + 1) (core_tick (now i) st).1

core_ticks_silent :
    (now : ℕ → ℕ) (k i n : ℕ) (b : Bus)
    → n % 1000 + k < 1000
    → n + k < 2 ^ 32
    → core_ticks now k i (n, b) ≡ (n + k, b)
unfolding core_ticks core_tick
core_ticks_silent now zero i n b h low = ap (λ m. (m, b)) (omega arith)
core_ticks_silent now (suc k) i n b h low =
    let small : (n + 1) % 2 ^ 32 ≡ n + 1 = omega arith in
    rw (small, ==-ne ((n + 1) % 1000) 0 (omega arith))
      (core_ticks_silent now k (i + 1) (n + 1) b (omega arith) (omega arith)
        ∙ ap (λ m. (m, b)) (omega arith))

core_ticks_reach :
    (now : ℕ → ℕ) (m j k i n : ℕ) (b : Bus)
    → m ≡ j + k
    → n % 1000 + j ≡ 999
    → k < 1000
    → n + m + 1 < 2 ^ 32
    → core_ticks now (suc m) i (n, b)
      ≡ (n + m + 1, (eventbus_publish (now (i + j)) b topic_kernel_tick (n + j + 1)).1)
unfolding core_ticks core_tick
core_ticks_reach now m zero k i n b e h short low =
    let small : (n + 1) % 2 ^ 32 ≡ n + 1 = omega arith in
    let whole : (n + 1) % 1000 ≡ 0 = omega arith in
    let b1 = (eventbus_publish (now i) b topic_kernel_tick (n + 1)).1 in
    rw (small, whole)
      (core_ticks_silent now m (i + 1) (n + 1) b1 (omega arith) (omega arith)
        ∙ ap (λ c. (c, b1)) (one_more n m)
        ∙ ap (λ (x : ℕ × ℕ). (n + m + 1, (eventbus_publish (now x.0) b topic_kernel_tick x.1).1))
            (no_more i n))
  where
    one_more : (a c : ℕ) → a + 1 + c ≡ a + c + 1
    one_more a c = omega arith

    plus_zero : (a : ℕ) → a + 0 ≡ a
    plus_zero a = omega arith

    no_more : (a c : ℕ) → ◌≡◌ {A = ℕ × ℕ} (a, c + 1) (a + 0, c + 0 + 1)
    no_more a c = rw (plus_zero a, plus_zero c) refl
core_ticks_reach now zero (suc j) k i n b e h short low = absurd (omega arith)
core_ticks_reach now (suc m) (suc j) k i n b e h short low =
    let small : (n + 1) % 2 ^ 32 ≡ n + 1 = omega arith in
    rw (small, ==-ne ((n + 1) % 1000) 0 (omega arith))
      (core_ticks_reach now m j k (i + 1) (n + 1) b (omega arith) (omega arith) short (omega arith)
        ∙ shifted n m i j)
  where
    over : (a c : ℕ) → a + 1 + c ≡ a + suc c
    over a c = omega arith

    shifted :
        (n m i j : ℕ)
        → ◌≡◌ {A = ℕ × Bus}
            (
              n + 1 + m + 1,
              (eventbus_publish (now (i + 1 + j)) b topic_kernel_tick (n + 1 + j + 1)).1,
            )
            (
              n + suc m + 1,
              (eventbus_publish (now (i + suc j)) b topic_kernel_tick (n + suc j + 1)).1,
            )
    shifted n m i j = rw (over n m, over i j, over n j) refl

-- Of any 1000 successive calls of `core_tick`, before the counter wraps, exactly one publishes, the one
-- that brings the counter to the next multiple of 1000: with it as payload, on the kernel tick topic.
pub core_ticks-eventbus_publish :
    (now : ℕ → ℕ) (n : ℕ) (b : Bus)
    → n + 1000 < 2 ^ 32
    → core_ticks now 1000 0 (n, b) ≡ (
      n + 1000,
      (eventbus_publish (now (999 - n % 1000)) b topic_kernel_tick (n / 1000 * 1000 + 1000)).1,
    )
core_ticks-eventbus_publish now n b low =
    core_ticks_reach now 999 (999 - n % 1000) (n % 1000) 0 n b (omega arith) (omega arith)
      (omega arith) (omega arith)
    ∙ ap₂ (λ (c : ℕ) (x : ℕ × ℕ). (c, (eventbus_publish (now x.0) b topic_kernel_tick x.1).1))
        (whole n) (ap₂ (λ (x y : ℕ). (x, y)) (omega arith) (omega arith))
  where
    whole : (a : ℕ) → a + 999 + 1 ≡ a + 1000
    whole a = omega arith
