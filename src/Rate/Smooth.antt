-- ===== src/Rate/Smooth.antt =====
-- common/rate/smooth_limiter.go: the limiter that sleeps between two transfers. An int64 is its
-- word of 64 bits; times are nanoseconds. The interval for `n` bytes, which the source computes in
-- floating point, is an argument, and so is the clock: `now` when a call begins, and `late` the
-- time that passes beside the sleep until the clock is read again.
use go_vnet.Base.{ℕ, ◌+◌, ◌-◌, ◌%◌, ◌^◌, Bool, not, ◌||◌, ltb, if◌then◌else◌}

-- `<` and `-` on int64
unfoldable pub less : ℕ → ℕ → Bool
less a b = ltb ((a + 2 ^ 63) % 2 ^ 64) ((b + 2 ^ 63) % 2 ^ 64)

unfoldable pub minus : ℕ → ℕ → ℕ
minus a b = (a + 2 ^ 64 - b) % 2 ^ 64

pub record SmoothLimiter : Type 0 where
  pub rate : ℕ
  pub last_time : ℕ

-- `NewSmoothLimiter` and `SetRate`
unfoldable pub new_smooth_limiter : ℕ → ℕ → SmoothLimiter
new_smooth_limiter rate now = record { rate = rate; last_time = now }

unfoldable pub set_rate : ℕ → SmoothLimiter → SmoothLimiter
set_rate rate l = record l { rate = rate }

-- how long a call sleeps
unfoldable pub waiting_time : ℕ → ℕ → SmoothLimiter → ℕ
waiting_time expected now l =
    let elapsed = minus now l.last_time in
    if less elapsed expected
    then (if less 0 (minus expected elapsed) then minus expected elapsed else 0)
    else 0

-- `WaitN`
unfoldable pub wait_n : (ℕ → ℕ → ℕ) → ℕ → ℕ → ℕ → SmoothLimiter → SmoothLimiter
wait_n interval n now late l =
    if not (less 0 n) || not (less 0 l.rate)
    then l
    else record l { last_time = (now + waiting_time (interval n l.rate) now l + late) % 2 ^ 64 }

-- `Wait`
unfoldable pub wait : (ℕ → ℕ → ℕ) → ℕ → ℕ → SmoothLimiter → SmoothLimiter
wait interval now late l = wait_n interval 1 now late l
