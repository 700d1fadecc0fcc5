-- ===== src/Flow/Totals.antt =====
-- What the records of a quota add up to, manager/server/internal/logic/quota/flow.go.
use go_vnet.Base.{
  ℕ, ◌+◌, ◌-◌, ◌%◌, ◌^◌, ◌≤◌, ◌<◌, ◌≡◌, refl, Bool, true, false, ◌&&◌, List, [], ◌∷◌, ◌++◌, arith,
  ltb, leb, ltb→lt, ◌==◌, if◌then◌else◌,
}
use go_vnet.Base.Int.{ℤ, pos, ◌+ℤ◌}
use go_vnet.Base.Int64.{word, int64, word-+ℤ, word-int64}
use go_vnet.Flow.{QuotaFlow, latest_end, merge_latest, distance, submit_to_database, load_usage}

-- the sum of all records, in 64 bits
abbrev pub recorded : List QuotaFlow → ℕ
recorded [] = 0
recorded (f ∷ flows) = (word f.usage + recorded flows) % 2 ^ 64

-- the latest record is one of them
abbrev IsEnd : ℕ → List QuotaFlow → Type 0
IsEnd last [] = ⊥
IsEnd last (f ∷ flows) = (f.record_end == last) ≡ false → IsEnd last flows

recorded-append :
    (flows : List QuotaFlow) (f : QuotaFlow)
    → recorded (flows ++ f ∷ []) ≡ (recorded flows + word f.usage) % 2 ^ 64
recorded-append [] f = omega arith
recorded-append (g ∷ flows) f = omega (arith, recorded-append flows f)

merge_latest-recorded :
    (last curr : ℕ) (usage : ℤ) (flows : List QuotaFlow)
    → IsEnd last flows
    → recorded (merge_latest last usage curr flows) ≡ (recorded flows + word usage) % 2 ^ 64
unfolding merge_latest
merge_latest-recorded last curr usage [] h = absurd h
merge_latest-recorded last curr usage (f ∷ flows) h =
    merged (f.record_end == last) refl λ e. merge_latest-recorded last curr usage flows (h e)
  where
    merged :
        (b : Bool)
        → (f.record_end == last) ≡ b
        → ((f.record_end == last) ≡ false
            → recorded (merge_latest last usage curr flows)
              ≡ (recorded flows + word usage) % 2 ^ 64)
        → recorded (
            if b
            then record f { usage = int64 (f.usage +ℤ usage); record_end = curr } ∷ flows
            else f ∷ merge_latest last usage curr flows)
          ≡ ((word f.usage + recorded flows) % 2 ^ 64 + word usage) % 2 ^ 64
    merged true e rest = omega (arith, word-int64 (f.usage +ℤ usage), word-+ℤ f.usage usage)
    merged false e rest = omega (arith, rest e)

latest_end-IsEnd : (flows : List QuotaFlow) → 0 < latest_end flows → IsEnd (latest_end flows) flows
unfolding latest_end
latest_end-IsEnd [] h = absurd (omega arith)
latest_end-IsEnd (f ∷ flows) h =
    latest (ltb f.record_end (latest_end flows)) refl (latest_end-IsEnd flows)
  where
    latest :
        (b : Bool)
        → ltb f.record_end (latest_end flows) ≡ b
        → (0 < latest_end flows → IsEnd (latest_end flows) flows)
        → (f.record_end == (if b then latest_end flows else f.record_end)) ≡ false
        → IsEnd (if b then latest_end flows else f.record_end) flows
    latest true e rest other = rest (omega (arith, ltb→lt f.record_end (latest_end flows) e))
    latest false e rest other = absurd (ground (arith, other))

-- Each submission adds its usage to the sum of the records, up to the wrap-around of 64 bits,
-- whether it is merged into the latest record or makes a new one.
pub submit_to_database-recorded :
    (usage : ℤ) (curr now : ℕ) (flows : List QuotaFlow)
    → recorded (submit_to_database usage curr now flows) ≡ (recorded flows + word usage) % 2 ^ 64
unfolding submit_to_database
submit_to_database-recorded usage curr now flows =
    submitted (ltb 0 (latest_end flows)) (ltb (distance curr (latest_end flows)) 3600) refl
  where
    submitted :
        (some_end near : Bool)
        → ltb 0 (latest_end flows) ≡ some_end
        → recorded (
            if some_end && near
            then merge_latest (latest_end flows) usage curr flows
            else flows ++ record { usage = usage; record_start = curr; record_end = now } ∷ [])
          ≡ (recorded flows + word usage) % 2 ^ 64
    submitted true true e =
        merge_latest-recorded (latest_end flows) curr usage flows
          (latest_end-IsEnd flows (ltb→lt 0 (latest_end flows) e))
    submitted true false e =
        recorded-append flows (record { usage = usage; record_start = curr; record_end = now })
    submitted false near e =
        recorded-append flows (record { usage = usage; record_start = curr; record_end = now })

-- If the only record of a period is merged with the usage of a session that began before the
-- period, then nothing is left in that period, neither the usage that is submitted nor what was
-- recorded before.
pub submit_to_database-backdates :
    (usage : ℤ) (curr now from until : ℕ) (f : QuotaFlow)
    → curr < from
    → from ≤ f.record_end
    → f.record_end < curr + 3600
    → load_usage from until (submit_to_database usage curr now (f ∷ [])) ≡ pos 0
unfolding submit_to_database latest_end merge_latest load_usage
submit_to_database-backdates usage curr now from until f before inside near =
    let last : ltb f.record_end 0 ≡ false = ground arith in
    let some_end : ltb 0 f.record_end ≡ true = ground arith in
    let later : ltb curr f.record_end ≡ true = ground arith in
    let close : ltb (f.record_end - curr) 3600 ≡ true = ground arith in
    let own : (f.record_end == f.record_end) ≡ true = ground arith in
    let outside : leb from curr ≡ false = ground arith in
    rw (last, some_end, later, close, own, outside) refl
