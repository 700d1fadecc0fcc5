-- ===== src/Metrics/Tests.antt =====
-- Two sessions of a network. Numbers are written as one digit.
use go_vnet.Base.{◌+◌, ◌-◌, ◌^◌, ◌≡◌, refl, List, [], ◌∷◌, codes}
use go_vnet.Metrics.{
  add, update_stats, delta, new_counter, new_transport, marshal_counter, marshal_json, tick,
  update_sessions, update_session_metrics, update_all,
}
use go_vnet.Metrics.Network.{start, tick-recorded}
use go_vnet.Metrics.Sessions.{rx_bytes, tx_bytes, field, Event, counts, ticks, run}

abbrev history : List Event
history =
    counts 0 rx_bytes 5
    ∷ ticks
    ∷ counts 1 rx_bytes 7
    ∷ counts 0 tx_bytes 9
    ∷ counts 2 rx_bytes 100
    ∷ ticks
    ∷ counts 0 rx_bytes (2 ^ 64 - 2)
    ∷ []

tick-recorded_example : (field rx_bytes (tick (run history (start 2))).1).total ≡ 10
tick-recorded_example = tick-recorded rx_bytes 2 history

-- without the last tick, what was counted since the one before is not there
before_tick : (field rx_bytes (run history (start 2)).1).total ≡ 12
unfolding tick update_sessions update_session_metrics update_all update_stats delta add
before_tick = refl

written :
    marshal_json (λ n. (b'0' + n) ∷ []) (record new_transport { rx_bytes = add 4 new_counter })
    ≡ codes
        "{\"rx_bytes_total\":4,\"rx_bytes_speed\":0,\"rx_packets_total\":0,\"rx_packets_speed\":0,\"tx_bytes_total\":0,\"tx_bytes_speed\":0,\"tx_packets_total\":0,\"tx_packets_speed\":0}"
unfolding marshal_json marshal_counter add
written = refl
