-- ===== src/Server/Tests.antt =====
-- Sessions at the addresses 2 and 3.
use go_vnet.Base.{
  ℕ, ◌+◌, ◌%◌, ◌^◌, ◌≤◌, ◌≡◌, refl, true, false, Option, none, some, List, [], ◌∷◌, take, find,
}
use go_vnet.Base.Int.{pos, negsuc, ◌+ℤ◌}
use go_vnet.Quota.{Quota, is_exceeded, add_usage}
use go_vnet.Hub.Destination.{Conn, Peer, negotiate, new_destination}
use go_vnet.Server.{
  TransportMetrics, Usage, more, eof, Chunk, proxy, send_chunk, receive_chunk, charge, count_tx,
  count_rx, after_read, stop_over_quota, negotiation, accepted,
}
use go_vnet.Server.Sessions.{Server}
use go_vnet.Server.Forwarding.{read_bytes, taken_bytes, proxy-IsCounted}
use go_vnet.Server.Negotiation.{heard, negotiate-negotiation}
use go_vnet.Server.Lifecycle.{IsSilent, rounds, rounds-IsSilent}

-- no limit, and a limit that is reached
abbrev unlimited : Quota
unlimited = record { used = pos 0; max_limit = negsuc 0; usage = pos 0; submitted = [] }

abbrev used_up : Quota
used_up = record { used = pos 11; max_limit = pos 10; usage = pos 0; submitted = [] }

abbrev no_metrics : TransportMetrics
no_metrics = record { rx_bytes = 0; rx_packets = 0; tx_bytes = 0; tx_packets = 0 }

abbrev sender : Usage
sender = record { quota = unlimited; metrics = no_metrics }

abbrev receiver : Usage
receiver = record { quota = used_up; metrics = no_metrics }

abbrev reads : List Chunk
reads =
    record { nr = 5; nw = 5; write_fails = false; read_end = more }
    ∷ record { nr = 7; nw = 7; write_fails = false; read_end = eof }
    ∷ []

-- The bytes that end the loop because of the receiver's quota have been sent and counted by the
-- sender.
stopped : (proxy reads sender receiver 0).src.metrics.tx_bytes ≡ 5
unfolding proxy send_chunk receive_chunk charge count_tx count_rx after_read stop_over_quota
    add_usage is_exceeded ◌+ℤ◌
stopped = refl

proxy-IsCounted_example :
    (i : ℕ) × (j : ℕ) × (k : ℕ) × ((proxy reads sender receiver 0).src.metrics.tx_bytes % 2 ^ 64
      ≡ (0 + read_bytes (take k reads)) % 2 ^ 64)
    × ((proxy reads sender receiver 0).dst.metrics.rx_bytes % 2 ^ 64
        ≡ (0 + taken_bytes (take j reads)) % 2 ^ 64)
    × ((proxy reads sender receiver 0).written ≡ 0 + taken_bytes (take i reads))
    × (i ≤ j)
    × (j ≤ k)
    × (k ≤ i + 1)
proxy-IsCounted_example = proxy-IsCounted reads sender receiver 0

abbrev routes : List ℕ → Option (Option ℕ)
routes [] = none
routes (b ∷ text) = some (some 9)

abbrev peer : Peer
peer = record { tries = true; enabled = true; mapped = true; stream = some 4 }

abbrev conn : Conn
conn = record { number = 7; p2p = false }

within : is_exceeded unlimited ≡ false
unfolding is_exceeded ◌+ℤ◌
within = refl

negotiate-negotiation_example :
    let answer = negotiation routes unlimited (some (1 ∷ [])) in
    let client = negotiate {P = ℕ} peer (heard conn answer.0) new_destination in
    (answer.1 ≡ accepted 9) × (client.1 ≡ none) × ((x : Conn) × (client.0.tx ≡ some x))
unfolding new_destination
negotiate-negotiation_example =
    negotiate-negotiation {P = ℕ} routes unlimited (1 ∷ []) 9 peer conn new_destination refl within
      refl

abbrev server : Server
server = record {
  sessions = (3, record { id = 5; last_ping = none; seen = none }) ∷ [];
  routes = (3, 5) ∷ [];
  devices = (3, 5) ∷ [];
  addresses = (3, 5) ∷ [];
  closed = [];
  version = 0;
}

silent : IsSilent (find 3 server.sessions)
unfolding find
silent = (record { id = 5; last_ping = none; seen = none }, refl, refl)

rounds-IsSilent_example :
    IsSilent (find 3 (rounds (10000000000 ∷ 20000000000 ∷ []) server.sessions))
rounds-IsSilent_example = rounds-IsSilent (10000000000 ∷ 20000000000 ∷ []) 3 server.sessions silent
