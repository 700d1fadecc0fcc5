-- ===== src/Rate.antt =====
-- common/rate/limiter.go: `Limiter`, a token bucket. The clock is an argument of the calls, which
-- run one after the other, so that no compare-and-swap fails. An `int` has 64 bits.
pub mod Bucket
pub mod Bounds
pub mod Overflow
pub mod Returns
pub mod Smooth
pub mod Spacing
mod Tests
use go_vnet.Base.{ℕ, Bool, true, false, ◌&&◌, ltb, if◌then◌else◌}
use go_vnet.Base.Int.{ℤ, pos, negsuc, ◌-ℤ◌, ◌+ℤ◌, ◌*ℤ◌, ltb_ℤ}
use go_vnet.Base.Int64.{int64, ◌/ℤ◌}

-- `precision` is positive: `NewLimiter` sets it to a million.
pub record Limiter : Type 0 where
  pub last_update : ℤ
  pub available : ℤ
  pub rate : ℤ
  pub burst : ℤ
  pub precision : ℕ
  pub last_consumed : ℤ

abbrev pub is_positive : ℤ → Bool
is_positive (pos n) = ltb 0 n
is_positive (negsuc n) = false

unfoldable pub new_limiter : ℤ → ℤ → ℤ → Limiter
unfolding int64
new_limiter rate burst now = record {
  last_update = now;
  available = int64 (burst *ℤ pos 1000000);
  rate = int64 (rate *ℤ pos 1000000);
  burst = int64 (burst *ℤ pos 1000000);
  precision = 1000000;
  last_consumed = pos 0;
}

-- a sum that is cut at the capacity
unfoldable pub cap_sum : ℤ → ℤ → ℤ → ℤ
unfolding int64
cap_sum burst current more =
    let new_current = int64 (current +ℤ more) in
    if ltb_ℤ burst new_current then burst else new_current

-- `elapsed`, and `added`: the tokens of the time since the last update
unfoldable pub elapsed : ℤ → Limiter → ℤ
unfolding int64
elapsed now l = int64 (now -ℤ l.last_update)

unfoldable pub added : ℤ → Limiter → ℤ
unfolding int64
added now l = int64 (elapsed now l *ℤ l.rate) /ℤ 1000000000

-- the first half of a round of `AllowN`: the update of time and tokens
unfoldable pub refill : ℤ → Limiter → Limiter
refill now l =
    if is_positive (elapsed now l)
    then record l {
      last_update = now;
      available =
          if is_positive (added now l)
          then cap_sum l.burst l.available (added now l)
          else l.available;
    }
    else l

-- the second half: the consumption
unfoldable pub consume : ℤ → Limiter → Limiter × Bool
unfolding int64
consume n l =
    let request = int64 (n *ℤ pos l.precision) in
    if ltb_ℤ l.available request
    then (l, false)
    else (record l { available = int64 (l.available -ℤ request); last_consumed = n }, true)

unfoldable pub allow_n : ℤ → ℤ → Limiter → Limiter × Bool
allow_n n now l = if is_positive n then consume n (refill now l) else (l, false)

unfoldable pub allow : ℤ → Limiter → Limiter × Bool
allow now l = allow_n (pos 1) now l

-- the number of tokens that `PutBack` reports, and what it leaves of `lastConsumed`
unfoldable pub put_back : ℤ → Limiter → Limiter × ℤ
unfolding int64
put_back n l =
    if is_positive n
    then (let new_current = cap_sum l.burst l.available (int64 (n *ℤ pos l.precision)) in
        let difference = int64 (new_current -ℤ l.available) in
        (
          record l {
            available = new_current;
            last_consumed = if ltb_ℤ l.last_consumed n then pos 0 else int64 (l.last_consumed -ℤ n);
          },
          (if is_positive difference then difference else pos 0) /ℤ l.precision,
        ))
    else (l, pos 0)

unfoldable pub put_back_from_last : ℤ → Limiter → Limiter × ℤ
unfolding int64
put_back_from_last used l =
    let unused = int64 (l.last_consumed -ℤ used) in
    if ltb_ℤ used (pos 0)
    then (l, pos 0)
    else if is_positive l.last_consumed && is_positive unused
    then put_back unused l
    else (l, pos 0)

-- `Tokens` times the precision: the source divides in float64
unfoldable pub scaled_tokens : ℤ → Limiter → ℤ
scaled_tokens now l =
    if is_positive (elapsed now l) then cap_sum l.burst l.available (added now l) else l.available

unfoldable pub rate_of : Limiter → ℤ
rate_of l = l.rate /ℤ l.precision

unfoldable pub burst_of : Limiter → ℤ
burst_of l = l.burst /ℤ l.precision
