-- ===== src/Flow/Tests.antt =====
-- The records of a day that begins at 86400.
use go_vnet.Base.{◌+◌, ◌%◌, ◌^◌, ◌≡◌, refl, true, List, [], ◌∷◌}
use go_vnet.Base.Int.{pos, negsuc, ◌+ℤ◌, ◌*ℤ◌}
use go_vnet.Base.Int64.{word, int64}
use go_vnet.Flow.{
  QuotaFlow, latest_end, merge_latest, submit_to_database, load_usage, megabytes, quota_value,
  is_exceed,
}
use go_vnet.Flow.Totals.{recorded, submit_to_database-recorded}

abbrev morning : List QuotaFlow
morning = record { usage = pos 100; record_start = 86500; record_end = 86600 } ∷ []

-- a session that began ten minutes before the day takes the record of the day with it
moved : load_usage 86400 172799 (submit_to_database (pos 50) 85800 86700 morning) ≡ pos 0
unfolding submit_to_database latest_end merge_latest load_usage
moved = refl

merged :
    submit_to_database (pos 50) 86620 86700 morning
    ≡ record { usage = pos 150; record_start = 86500; record_end = 86620 } ∷ []
unfolding submit_to_database latest_end merge_latest int64 ◌+ℤ◌
merged = refl

-- no limit is exceeded by nothing
no_limit : is_exceed (pos 0) (negsuc 0) ≡ true
unfolding is_exceed
no_limit = refl

two_megabytes : quota_value megabytes (pos 2) ≡ pos 2097152
unfolding quota_value int64 ◌*ℤ◌
two_megabytes = refl

submit_to_database-recorded_example :
    recorded (submit_to_database (pos 50) 85800 86700 morning)
    ≡ (recorded morning + word (pos 50)) % 2 ^ 64
submit_to_database-recorded_example = submit_to_database-recorded (pos 50) 85800 86700 morning
