-- ===== src/Rate/Tests.antt =====
-- A limiter of 2 tokens per second with a capacity of 5 tokens.
use go_vnet.Base.{ℕ, ◌+◌, ◌-◌, ◌*◌, ◌≤◌, ◌≡◌, refl, Bool, true, List, [], ◌∷◌, arith}
use go_vnet.Base.Int.{pos, ◌*ℤ◌, ◌+ℤ◌, ◌-ℤ◌}
use go_vnet.Base.Int64.{int64, ◌/ℤ◌}
use go_vnet.Rate.{
  Limiter, new_limiter, elapsed, added, cap_sum, refill, consume, allow, allow_n, scaled_tokens,
  rate_of, burst_of,
}
use go_vnet.Rate.Bucket.{Bucket}
use go_vnet.Rate.Bounds.{run, run-bound}
use go_vnet.Rate.Smooth.{new_smooth_limiter, less, wait_n, waiting_time, minus}
use go_vnet.Rate.Spacing.{run_transfers, run_transfers_spaced}

abbrev at_level : ℕ → ℕ → Limiter
at_level t a = record {
  last_update = pos t;
  available = pos a;
  rate = pos 2000000;
  burst = pos 5000000;
  precision = 1000000;
  last_consumed = pos 0;
}

abbrev at_level-Bucket : (t a : ℕ) → Bucket t a 2000000 5000000 (at_level t a)
at_level-Bucket t a = record {
  updated = refl;
  level = refl;
  speed = refl;
  capacity = refl;
  unit = refl;
}

starts_full : new_limiter (pos 2) (pos 5) (pos 7) ≡ at_level 7 5000000
unfolding new_limiter int64 ◌*ℤ◌
starts_full = refl

-- one second gives two tokens
refills : refill (pos 1000000007) (at_level 7 0) ≡ at_level 1000000007 2000000
unfolding refill elapsed added cap_sum int64 ◌*ℤ◌ ◌+ℤ◌ ◌-ℤ◌ ◌/ℤ◌
refills = refl

seen : scaled_tokens (pos 1000000007) (at_level 7 0) ≡ pos 2000000
unfolding scaled_tokens elapsed added cap_sum int64 ◌*ℤ◌ ◌+ℤ◌ ◌-ℤ◌ ◌/ℤ◌
seen = refl

reads : (rate_of (at_level 7 0) ≡ pos 2) × (burst_of (at_level 7 0) ≡ pos 5)
unfolding rate_of burst_of ◌/ℤ◌
reads = (refl, refl)

allow_is_one : (now : ℕ) → allow (pos now) (at_level 0 0) ≡ allow_n (pos 1) (pos now) (at_level 0 0)
unfolding allow
allow_is_one now = refl

abbrev requests : List (ℕ × ℕ)
requests = (1, 500000000) ∷ (3, 600000000) ∷ (2, 2000000000) ∷ []

run-bound_example :
    (0 ≤ 2000000000)
    × ((run requests (at_level 0 0)).1 * 1000000 * 1000000000
        ≤ 0 * 1000000000 + (2000000000 - 0) * 2000000)
run-bound_example =
    run-bound requests (at_level 0 0) (at_level-Bucket 0 0) (omega arith) (omega arith) (
      omega arith,
      omega arith,
      omega arith,
      omega arith,
      omega arith,
      (
        omega arith,
        omega arith,
        omega arith,
        omega arith,
        omega arith,
        (omega arith, omega arith, omega arith, omega arith, omega arith, tt),
      ),
    )

-- 3 of the 4 tokens are taken.
abbrev taken : Limiter × Bool
taken = (record (at_level 0 1000000) { last_consumed = pos 3 }, true)

three_taken : allow_n (pos 3) (pos 0) (at_level 0 4000000) ≡ taken
unfolding allow_n consume refill elapsed added cap_sum int64 ◌*ℤ◌ ◌+ℤ◌ ◌-ℤ◌ ◌/ℤ◌
three_taken = refl

-- a nanosecond for each byte
-- The second transfer is told a time before the first.
run_transfers_spaced_example :
    100 + 30
    ≤ (run_transfers
        (λ n rate. n)
        (record { bytes = 10; now = 105; late = 2 }
          ∷ record { bytes = 20; now = 90; late = 0 }
          ∷ [])
        (new_smooth_limiter 1000 100)).last_time
unfolding new_smooth_limiter less wait_n waiting_time minus
run_transfers_spaced_example =
    run_transfers_spaced (λ n rate. n)
      (record { bytes = 10; now = 105; late = 2 } ∷ record { bytes = 20; now = 90; late = 0 } ∷ [])
      (new_smooth_limiter 1000 100) refl
      (
        omega arith,
        omega arith,
        omega arith,
        omega arith,
        omega arith,
        (omega arith, omega arith, omega arith, omega arith, omega arith, tt),
      )
