-- ===== src/Metrics.antt =====
-- common/metrics/transport.go: the counters of a session or a network, with vnet/server/loop.go,
-- which feeds those of a network from those of its sessions. Counters are numbers below 2 ^ 64.
-- `BytesCounter` and `PacketCounter` are the same type up to the name.
pub mod Sessions
pub mod Network
mod Tests
use go_vnet.Base.{
  ℕ, zero, suc, ◌+◌, ◌-◌, ◌%◌, ◌^◌, Option, none, some, List, [], ◌∷◌, ◌++◌, ltb, leb, ◌==◌,
  if◌then◌else◌, codes,
}

pub record Counter : Type 0 where
  pub total : ℕ
  pub last : ℕ
  pub speed : ℕ

pub record Transport : Type 0 where
  pub rx_bytes : Counter
  pub rx_packets : Counter
  pub tx_bytes : Counter
  pub tx_packets : Counter

-- `NewBytesCounter`, `NewPacketCounter`
abbrev pub new_counter : Counter
new_counter = record { total = 0; last = 0; speed = 0 }

-- `NewTransportMetrics`
abbrev pub new_transport : Transport
new_transport = record {
  rx_bytes = new_counter;
  rx_packets = new_counter;
  tx_bytes = new_counter;
  tx_packets = new_counter;
}

-- `Add`
unfoldable pub add : ℕ → Counter → Counter
add delta c = record c { total = (c.total + delta) % 2 ^ 64 }

-- `Get`
unfoldable pub get : Counter → ℕ × ℕ × ℕ
get c = (c.total, c.last, c.speed)

-- the increase since the last update
unfoldable pub delta : Counter → ℕ
delta c = (c.total + 2 ^ 64 - c.last) % 2 ^ 64

-- `UpdateStats`
unfoldable pub update_stats : Counter → Counter
update_stats c = record c { last = c.total; speed = (if ltb 0 (delta c) then delta c else 0) }

-- `Reset` of a counter
unfoldable pub reset : Counter → Counter
reset c = record { total = 0; last = 0; speed = 0 }

-- `UpdateAll`
unfoldable pub update_all : Transport → Transport
update_all t = record {
  rx_bytes = update_stats t.rx_bytes;
  rx_packets = update_stats t.rx_packets;
  tx_bytes = update_stats t.tx_bytes;
  tx_packets = update_stats t.tx_packets;
}

-- `Reset` of all counters
unfoldable pub reset_all : Transport → Transport
reset_all t = record {
  rx_bytes = reset t.rx_bytes;
  rx_packets = reset t.rx_packets;
  tx_bytes = reset t.tx_bytes;
  tx_packets = reset t.tx_packets;
}

-- the total and the speed of a counter in `MarshalJSON`, with `strconv.AppendUint` for the numbers
unfoldable pub marshal_counter : (ℕ → List ℕ) → List ℕ → List ℕ → Counter → List ℕ
marshal_counter digits total speed c =
    total ++ (digits c.total ++ (b',' ∷ (speed ++ digits c.speed)))

-- `MarshalJSON`
unfoldable pub marshal_json : (ℕ → List ℕ) → Transport → List ℕ
marshal_json digits t =
    b'{'
    ∷ (marshal_counter digits (codes "\"rx_bytes_total\":") (codes "\"rx_bytes_speed\":") t.rx_bytes
        ++ (b','
            ∷ (marshal_counter digits (codes "\"rx_packets_total\":")
                  (codes "\"rx_packets_speed\":") t.rx_packets
                ++ (b','
                    ∷ (marshal_counter digits (codes "\"tx_bytes_total\":")
                          (codes "\"tx_bytes_speed\":") t.tx_bytes
                        ++ (b','
                            ∷ (marshal_counter digits (codes "\"tx_packets_total\":")
                                  (codes "\"tx_packets_speed\":") t.tx_packets
                                ++ (b'}' ∷ []))))))))

-- `SpeedCalculator`: times in nanoseconds, 0 before the first call
pub record SpeedCalculator : Type 0 where
  pub last_time : ℕ
  pub last_value : ℕ

-- `Calculate` at the time `now`; `per_second delta elapsed` is the quotient in floating point
unfoldable pub calculate : (ℕ → ℕ → ℕ) → ℕ → ℕ → SpeedCalculator → SpeedCalculator × ℕ
calculate per_second now value s =
    let increase = (value + 2 ^ 64 - s.last_value) % 2 ^ 64 in
    if s.last_time == 0
    then (record { last_time = now; last_value = value }, 0)
    else if leb now s.last_time
    then (s, 0)
    else if increase == 0
    then (s, 0)
    else (record { last_time = now; last_value = value }, per_second increase (now - s.last_time))

-- `updateSessionMetrics`: a session and its network
unfoldable pub update_session_metrics : Transport → Transport → Transport × Transport
update_session_metrics session network =
    let updated = update_all session in
    (
      updated,
      record network {
        rx_bytes = add updated.rx_bytes.speed network.rx_bytes;
        tx_bytes = add updated.tx_bytes.speed network.tx_bytes;
        rx_packets = add updated.rx_packets.speed network.rx_packets;
        tx_packets = add updated.tx_packets.speed network.tx_packets;
      },
    )

-- the sessions of a network, one after the other, at a tick of `backgroundLoop`
unfoldable pub update_sessions : List Transport → Transport → List Transport × Transport
update_sessions [] network = ([], network)
update_sessions (session ∷ sessions) network =
    let first = update_session_metrics session network in
    let rest = update_sessions sessions first.1 in (first.0 ∷ rest.0, rest.1)

-- a tick of `metricsTicker`, for one network
unfoldable pub tick : List Transport × Transport → List Transport × Transport
tick s = let updated = update_sessions s.0 s.1 in (updated.0, update_all updated.1)
