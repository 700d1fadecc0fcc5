-- ===== src/Flow.antt =====
-- manager/server/internal/logic/quota: the records of the usage that is submitted for a quota and a
-- target, and the limits of a quota in bytes. The table has the rows of that quota and target; the
-- clock is an argument, in seconds. An error of the database is not modelled: it changes nothing.
pub mod Totals
mod Tests
use go_vnet.Base.{
  ℕ, zero, suc, ◌+◌, ◌-◌, ◌*◌, Bool, true, false, ◌&&◌, Option, none, some, List, [], ◌∷◌, ◌++◌,
  ltb, leb, ◌==◌, if◌then◌else◌,
}
use go_vnet.Base.Int.{ℤ, pos, negsuc, ◌+ℤ◌, ◌*ℤ◌, ltb_ℤ}
use go_vnet.Base.Int64.{int64}

-- a row of `quota_flow`
pub record QuotaFlow : Type 0 where
  pub usage : ℤ
  pub record_start : ℕ
  pub record_end : ℕ

-- the end of the latest record
unfoldable pub latest_end : List QuotaFlow → ℕ
latest_end [] = 0
latest_end (f ∷ flows) =
    let rest = latest_end flows in if ltb f.record_end rest then rest else f.record_end

-- the update of the latest record
unfoldable pub merge_latest : ℕ → ℤ → ℕ → List QuotaFlow → List QuotaFlow
merge_latest last usage curr [] = []
merge_latest last usage curr (f ∷ flows) =
    let rest = merge_latest last usage curr flows in
    if f.record_end == last
    then record f { usage = int64 (f.usage +ℤ usage); record_end = curr } ∷ flows
    else f ∷ rest

abbrev pub distance : ℕ → ℕ → ℕ
distance a b = if ltb a b then b - a else a - b

-- `submitToDatabase`: `curr` is the time the adaptor was made, `now` the present
unfoldable pub submit_to_database : ℤ → ℕ → ℕ → List QuotaFlow → List QuotaFlow
submit_to_database usage curr now flows =
    let last = latest_end flows in
    if ltb 0 last && ltb (distance curr last) 3600
    then merge_latest last usage curr flows
    else flows ++ record { usage = usage; record_start = curr; record_end = now } ∷ []

-- `LoadUsage` between two times
unfoldable pub load_usage : ℕ → ℕ → List QuotaFlow → ℤ
load_usage from until [] = pos 0
load_usage from until (f ∷ flows) =
    let rest = load_usage from until flows in
    if leb from f.record_end && leb f.record_end until then int64 (f.usage +ℤ rest) else rest

-- the units of a quota
pub data ResourceType : Type 0 where
  megabytes gigabytes terabytes megabytes_per_second : ResourceType

-- `GetById`: the value of a quota that is found
unfoldable pub quota_value : ResourceType → ℤ → ℤ
quota_value megabytes v = int64 (v *ℤ pos (1024 * 1024))
quota_value gigabytes v = int64 (v *ℤ pos (1024 * 1024 * 1024))
quota_value terabytes v = int64 (v *ℤ pos (1024 * 1024 * 1024 * 1024))
quota_value megabytes_per_second v = v

-- `GetQuotaDetails`
unfoldable pub is_exceed : ℤ → ℤ → Bool
is_exceed usage value = ltb_ℤ value usage
