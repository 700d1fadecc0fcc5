-- ===== src/Rate/Spacing.antt =====
-- common/rate/smooth_limiter.go: how much time the transfers take together.
use go_vnet.Base.{
  ℕ, ◌+◌, ◌^◌, ◌≤◌, ◌<◌, ◌≡◌, ap, ◌∙◌, true, not, List, [], ◌∷◌, arith, ◌==◌, if◌then◌else◌,
}
use go_vnet.Rate.Smooth.{less, minus, SmoothLimiter, waiting_time, wait_n}

-- a transfer: its bytes, the time when it asks, and the delay beside its sleep
pub record Transfer : Type 0 where
  pub bytes : ℕ
  pub now : ℕ
  pub late : ℕ

abbrev pub run_transfers : (ℕ → ℕ → ℕ) → List Transfer → SmoothLimiter → SmoothLimiter
run_transfers interval [] l = l
run_transfers interval (t ∷ transfers) l =
    run_transfers interval transfers (wait_n interval t.bytes t.now t.late l)

-- the intervals that the transfers stand for at a rate
abbrev pub intervals : (ℕ → ℕ → ℕ) → ℕ → List Transfer → ℕ
intervals interval rate [] = 0
intervals interval rate (t ∷ transfers) =
    (if t.bytes == 0 then 0 else interval t.bytes rate) + intervals interval rate transfers

-- Whenever a transfer asks, the clock and the limiter show times before 2 ^ 62, the year 2116, the
-- bytes are no negative number, and the interval and the delay are below 2 ^ 62, 146 years.
abbrev pub IsUsual : (ℕ → ℕ → ℕ) → List Transfer → SmoothLimiter → Type 0
IsUsual interval [] l = Unit
IsUsual interval (t ∷ transfers) l =
    (l.last_time < 2 ^ 62)
    × (t.now < 2 ^ 62)
    × (t.bytes < 2 ^ 63)
    × (interval t.bytes l.rate < 2 ^ 62)
    × (t.late < 2 ^ 62)
    × IsUsual interval transfers (wait_n interval t.bytes t.now t.late l)

-- a wait without a wrap-around: to the end of the interval, if that is still to come
waiting_time_lem :
    (expected now : ℕ) (l : SmoothLimiter)
    → now < 2 ^ 62
    → expected < 2 ^ 62
    → l.last_time < 2 ^ 62
    → (l.last_time + expected ≤ now + waiting_time expected now l)
      × (waiting_time expected now l < 2 ^ 63)
unfolding waiting_time less minus
waiting_time_lem expected now l small short before = (ground arith, ground arith)

less-positive : (n : ℕ) → n < 2 ^ 63 → less 0 n ≡ not (n == 0)
unfolding less
less-positive n small = ground arith

spaced :
    (interval : ℕ → ℕ → ℕ) (t : Transfer) (l : SmoothLimiter)
    → less 0 l.rate ≡ true
    → l.last_time < 2 ^ 62
    → t.now < 2 ^ 62
    → t.bytes < 2 ^ 63
    → interval t.bytes l.rate < 2 ^ 62
    → t.late < 2 ^ 62
    → (l.last_time + (if t.bytes == 0 then 0 else interval t.bytes l.rate)
        ≤ (wait_n interval t.bytes t.now t.late l).last_time)
      × ((wait_n interval t.bytes t.now t.late l).rate ≡ l.rate)
unfolding wait_n
spaced interval t l some_rate before small count short soon =
    let (wait, bound) = waiting_time_lem (interval t.bytes l.rate) t.now l small short before in
    let positive = less-positive t.bytes count in
    (
      ground (arith, wait, bound, positive, some_rate, soon, small),
      ground (arith, positive, some_rate),
    )

-- At a positive rate the calls of `WaitN` keep their distance, whatever the clock shows when they
-- ask, also where it went back, as long as times, intervals and delays are far from the wrap-around
-- of int64: from the start to the end of the last transfer there pass at least the intervals of all
-- the transfers.
pub run_transfers_spaced :
    (interval : ℕ → ℕ → ℕ) (transfers : List Transfer) (l : SmoothLimiter)
    → less 0 l.rate ≡ true
    → IsUsual interval transfers l
    → l.last_time + intervals interval l.rate transfers
      ≤ (run_transfers interval transfers l).last_time
run_transfers_spaced interval [] l some_rate usual = omega arith
run_transfers_spaced interval (t ∷ transfers) l some_rate
      (before, small, count, short, soon, usual) =
    let (first, same) = spaced interval t l some_rate before small count short soon in
    let next = wait_n interval t.bytes t.now t.late l in
    let rest = run_transfers_spaced interval transfers next (ap (less 0) same ∙ some_rate) usual in
    omega (arith, first, rest, ap (λ r. intervals interval r transfers) same)
