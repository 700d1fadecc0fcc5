-- ===== src/Quota.antt =====
-- common/quota/quota.go: `Quota`, with its counter as an integer of 64 bits and the values that
-- went to `SubmitUsage` as the list `submitted`, the last one first: `CommitUsage` hands over the
-- counter alone, not its sum with `maxLimit`, as the comment of `SubmitUsage` has it. What the
-- adaptor's `GetQuotaMaxUsage` and `LoadUsage` return is an argument of `new`; the calls run one
-- after the other.
pub mod Accounting
pub mod Limit
mod Tests
use go_vnet.Base.{
  ℕ, ◌+◌, ◌-◌, ◌%◌, ◌^◌, Bool, true, false, not, ◌&&◌, Option, none, some, List, [], ◌∷◌, ltb, ◌==◌,
  if◌then◌else◌,
}
use go_vnet.Base.Int.{ℤ, pos, negsuc, ◌+ℤ◌, ltb_ℤ}
use go_vnet.Base.Int64.{int64}

abbrev pub is_zero : ℤ → Bool
is_zero (pos n) = n == 0
is_zero (negsuc n) = false

abbrev pub is_no_limit : ℤ → Bool
is_no_limit (pos n) = false
is_no_limit (negsuc n) = n == 0

pub record Quota : Type 0 where
  pub used : ℤ
  pub max_limit : ℤ
  pub usage : ℤ
  pub submitted : List ℤ

pub data AddResult : Type 0 where
  added quota_exceeded : AddResult

-- `New`: `loaded` is what `LoadUsage` returns, `none` its error
unfoldable pub new : ℤ → Option ℤ → Option Quota
new max_limit none = none
new max_limit (some used) =
    some (record { used = used; max_limit = max_limit; usage = pos 0; submitted = [] })

unfoldable pub is_exceeded : Quota → Bool
unfolding int64
is_exceeded q = ltb_ℤ q.max_limit (int64 (q.usage +ℤ q.used)) && not (is_no_limit q.max_limit)

unfoldable pub commit_usage : Quota → Quota × ℤ
commit_usage q =
    if is_zero q.usage
    then (q, pos 0)
    else (record q { usage = pos 0; submitted = q.usage ∷ q.submitted }, q.usage)

unfoldable pub add_usage : ℤ → Quota → Quota × AddResult
add_usage value q =
    if is_zero value
    then (q, added)
    else if is_exceeded q
    then ((commit_usage q).0, quota_exceeded)
    else (record q { usage = int64 (q.usage +ℤ value) }, added)

unfoldable pub reset : Quota → Quota
reset q = record q { usage = pos 0 }
