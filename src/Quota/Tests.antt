-- ===== src/Quota/Tests.antt =====
-- A quota of 100 bytes of which 30 are used.
use go_vnet.Base.{ℕ, ◌≡◌, refl, some, List, [], ◌∷◌}
use go_vnet.Base.Int.{pos, negsuc, ◌+ℤ◌}
use go_vnet.Base.Int64.{int64}
use go_vnet.Quota.{Quota, new, add_usage, commit_usage, is_exceeded, reset}
use go_vnet.Quota.Accounting.{Call, add, commit, run, accepted_in, accounted, total, run-accounted}

abbrev counted : ℕ → Quota
counted c = record { used = pos 30; max_limit = pos 100; usage = pos c; submitted = [] }

abbrev unlimited : Quota
unlimited = record { used = pos 30; max_limit = negsuc 0; usage = pos 0; submitted = [] }

abbrev spent : Quota
spent = record { used = pos 130; max_limit = pos 100; usage = pos 0; submitted = [] }

abbrev traffic : List Call
traffic = add (pos 50) ∷ add (pos 40) ∷ add (pos 7) ∷ add (pos 20) ∷ commit ∷ []

loaded : new (pos 100) (some (pos 30)) ≡ some (counted 0)
unfolding new
loaded = refl

-- 50 and 40 are accepted, 7 is rejected and submits 90, 20 is accepted and committed.
submits_twice : (run traffic (counted 0)).submitted ≡ pos 20 ∷ pos 90 ∷ []
unfolding add_usage commit_usage is_exceeded int64 ◌+ℤ◌
submits_twice = refl

reset_drops : reset (counted 9) ≡ counted 0
unfolding reset
reset_drops = refl

run-accounted_example :
    int64 (accounted (run traffic (counted 0)))
    ≡ int64 (accounted (counted 0) +ℤ total (accepted_in traffic (counted 0)))
run-accounted_example = run-accounted traffic (counted 0)
