-- ===== src/Hub/Tests.antt =====
-- The hub with two destinations, 10.0.0.0/8 and 10.0.0.2/32, and the client's own address
-- 10.0.0.3/32.
use go_vnet.Base.{
  ℕ, ◌≡◌, ◌≢◌, refl, ◌⊎◌, inl, true, false, Option, none, some, List, [], ◌∷◌, ◌++◌, arith, length,
  take, replicate,
}
use go_vnet.Router.{
  Router, insert_ipv4, insert_loop, bit_at, new_router, route, lookup_ipv4, lookup_loop, visit,
}
use go_vnet.Router.Packets.{route_batch}
use go_vnet.Hub.{
  push, recycle, valid_routes, all_same, batch_of, put_batch, remove_batch, aggregate, flush,
  send_batches, dispatch_routes, dispatch, collect, collect_more,
}
use go_vnet.Hub.Batches.{delivered}
use go_vnet.Hub.Delivery.{sent_to, dispatch-delivered}
use go_vnet.Server.{negotiate_response_quota_exceeded}
use go_vnet.Hub.Destination.{
  Conn, Destination, Peer, undialed, answered, new_destination, replaced_tx, replace_tx,
  push_tx_event, enqueue, tx_round, round_of, write_collected, write_tx, fallback_or_report_error,
  give_back,
}
use go_vnet.Hub.Destination.Once.{Reach, here, next, pushes, replace_tx_once}
use go_vnet.Hub.Destination.Negotiating.{push_tx_event_panics}
use go_vnet.Hub.Destination.Draining.{drain, drain_empties}
use go_vnet.Hub.Collecting.{packets_of, collect_prefix}
use go_vnet.Protocol.{done, failed, end_of_stream, invalid_magic}
use go_vnet.Protocol.Batches.{batch_payload}
use go_vnet.Hub.Receiving.{
  closed, crashed, single, batch, noise, handle_rx, receive_read, receive_typed, receive_packet,
  lose, stop, handle_rx-in_order,
}

inserted : Option (Router (Option ℕ)) → List ℕ → ℕ → Option ℕ → Option (Router (Option ℕ))
inserted none ip ones target = none
inserted (some r) ip ones target = insert_ipv4 r ip ones target

router : Option (Router (Option ℕ))
unfolding inserted insert_ipv4 insert_loop bit_at new_router
router =
    inserted
      (inserted (inserted (some new_router) (10 ∷ 0 ∷ 0 ∷ 0 ∷ []) 8 (some 1)) (10 ∷ 0 ∷ 0 ∷ 2 ∷ [])
        32 (some 2))
      (10 ∷ 0 ∷ 0 ∷ 3 ∷ []) 32 none

or_empty : Option (Router (Option ℕ)) → Router (Option ℕ)
or_empty (some r) = r
or_empty none = new_router

table : Router (Option ℕ)
unfolding or_empty router new_router
table = or_empty router

abbrev packet_to : ℕ → ℕ → List ℕ
packet_to net host = 0x45 ∷ (replicate 15 0 ++ net ∷ 0 ∷ 0 ∷ host ∷ [])

-- to both destinations, to the client itself, and to nobody
abbrev mixed : List (List ℕ)
mixed = packet_to 10 7 ∷ packet_to 10 2 ∷ packet_to 10 3 ∷ packet_to 11 1 ∷ packet_to 10 8 ∷ []

abbrev mixed_targets : List (Option (Option ℕ))
mixed_targets = some (some 1) ∷ some (some 2) ∷ some none ∷ none ∷ some (some 1) ∷ []

routed : route_batch table mixed ≡ some (mixed_targets, 4)
unfolding route_batch route table lookup_ipv4 lookup_loop visit bit_at
routed = refl

-- full batches of one packet each
sent_one_by_one :
    dispatch 1 mixed_targets 4 mixed
    ≡ push 1 (packet_to 10 7 ∷ [])
      ∷ push 2 (packet_to 10 2 ∷ [])
      ∷ push 1 (packet_to 10 8 ∷ [])
      ∷ recycle mixed
      ∷ []
unfolding dispatch dispatch_routes valid_routes all_same send_batches aggregate flush batch_of
    put_batch remove_batch
sent_one_by_one = refl

dispatch-delivered_example :
    delivered 1 (dispatch 2 mixed_targets 4 mixed) ≡ sent_to 1 mixed_targets mixed
dispatch-delivered_example =
    dispatch-delivered 2 1 1 2 4 table mixed mixed_targets (omega arith) routed (omega arith)
      (omega arith) (omega arith)

-- to one destination, and to nobody
abbrev one_way : List (List ℕ)
one_way = packet_to 11 1 ∷ packet_to 10 2 ∷ []

routed_one_way : route_batch table one_way ≡ some (none ∷ some (some 2) ∷ [], 1)
unfolding route_batch route table lookup_ipv4 lookup_loop visit bit_at
routed_one_way = refl

only_two : (e : ℕ) → e ≢ 2 → sent_to e (none ∷ some (some 2) ∷ []) one_way ≡ []
only_two e ne = ground (arith, ne)

-- room for three packets: the second event is cut, the third one stays
cut :
    collect {P = ℕ} 3 (1 ∷ 2 ∷ []) ((3 ∷ 4 ∷ []) ∷ (5 ∷ []) ∷ [])
    ≡ some (1 ∷ 2 ∷ 3 ∷ [], (1 ∷ 2 ∷ []) ∷ (3 ∷ 4 ∷ []) ∷ [], (5 ∷ []) ∷ [])
unfolding collect collect_more
cut = refl

collect_prefix_example :
    (more : List ℕ × List (List ℕ) × List (List ℕ)) × (collect {P = ℕ} 3
        (1 ∷ 2 ∷ [])
        ((3 ∷ 4 ∷ []) ∷ (5 ∷ []) ∷ [])
      ≡ some more)
    × (more.0 ≡ take 3 (packets_of more.1))
    × (more.1 ++ more.2 ≡ (1 ∷ 2 ∷ []) ∷ (3 ∷ 4 ∷ []) ∷ (5 ∷ []) ∷ [])
    × ((more.2 ≡ []) ⊎ (length more.0 ≡ 3))
collect_prefix_example = collect_prefix 3 (1 ∷ 2 ∷ []) ((3 ∷ 4 ∷ []) ∷ (5 ∷ []) ∷ []) (omega arith)

abbrev server : Conn
server = record { number = 7; p2p = false }

abbrev peer_stream : Conn
peer_stream = record { number = 8; p2p = true }

abbrev started : Destination ℕ
started = record {
  tx = some server;
  fallback = none;
  events = [];
  errors = [];
  fallbacks = [];
  written = [];
  recycled = [];
}

abbrev waiting : Destination ℕ
waiting = record started { events = (1 ∷ 2 ∷ []) ∷ (3 ∷ []) ∷ (4 ∷ 5 ∷ []) ∷ [] }

abbrev off : Peer
off = record { tries = true; enabled = false; mapped = false; stream = none }

-- to the peer, and then two failed writes
abbrev to_peer : Option Conn → Option Conn
to_peer old = some peer_stream

replaced : Destination ℕ
unfolding replace_tx replaced_tx
replaced = (replace_tx to_peer started).0

failed_round :
    tx_round 4 (λ c. true) (enqueue (1 ∷ []) replaced)
    ≡ some (record replaced {
      tx = some server;
      fallbacks = some peer_stream ∷ [];
      written = (peer_stream, 1 ∷ []) ∷ [];
      recycled = (1 ∷ []) ∷ [];
    })
unfolding replaced tx_round round_of enqueue write_collected collect collect_more write_tx
    fallback_or_report_error give_back
failed_round = refl

pushed_there :
    Reach ℕ
      (replace_tx to_peer started).0
      (push_tx_event off undialed (1 ∷ []) (replace_tx to_peer started).0)
pushed_there = next here (pushes _ off undialed (1 ∷ []))

replace_tx_once_example :
    let e = push_tx_event off undialed (1 ∷ []) (replace_tx to_peer started).0 in
    (e.fallback ≡ some server)
    × ((e.tx ≡ some peer_stream) ⊎ (e.tx ≡ some server))
    × (e.errors ≡ [])
    × (replace_tx to_peer e ≡ (e, false))
replace_tx_once_example =
    replace_tx_once server peer_stream to_peer to_peer started
      (push_tx_event off undialed (1 ∷ []) (replace_tx to_peer started).0) refl refl refl
      pushed_there

push_tx_event_panics_example :
    tx_round {P = ℕ} 4
      (λ c. false)
      (push_tx_event off
        (answered server negotiate_response_quota_exceeded)
        (1 ∷ [])
        new_destination)
    ≡ none
unfolding new_destination
push_tx_event_panics_example =
    push_tx_event_panics {P = ℕ} 4 (λ c. false) off server (1 ∷ []) new_destination refl refl refl
      (inl refl) (omega arith)

drain_empties_example :
    (e : Destination ℕ) × (drain 3 3 (λ c. true) waiting ≡ some e)
    × (e.events ≡ [])
    × (e.recycled ≡ waiting.recycled ++ waiting.events)
drain_empties_example =
    drain_empties 3 3 (λ c. true) server waiting (omega arith) refl
      (omega arith, (omega arith, (omega arith, tt)))

handle_rx-in_order_example :
    handle_rx 2 2 (4 ∷ 4 ∷ []) (
      done (1, 0 ∷ 2 ∷ 0 ∷ 2 ∷ 0 ∷ 1 ∷ 5 ∷ 6 ∷ 7 ∷ [])
      ∷ failed invalid_magic
      ∷ done (0, 8 ∷ [])
      ∷ failed end_of_stream
      ∷ done (0, 9 ∷ [])
      ∷ [])
    ≡ record {
      events = ((5 ∷ 6 ∷ []) ∷ (7 ∷ []) ∷ []) ∷ ((8 ∷ []) ∷ []) ∷ [];
      recycled = 2;
      lost = 0;
      end = closed end_of_stream;
    }
unfolding batch_payload
handle_rx-in_order_example =
    handle_rx-in_order 2 2 (4 ∷ 4 ∷ [])
      (batch ((5 ∷ 6 ∷ []) ∷ (7 ∷ []) ∷ []) ∷ noise ∷ single (8 ∷ []) ∷ []) end_of_stream
      (done (0, 9 ∷ []) ∷ [])
      (
        omega arith,
        omega arith,
        (omega arith, omega arith, (omega arith, omega arith, tt)),
        ((omega arith, omega arith, tt), tt),
      )
      (λ same. absurd (cc))

-- A message of another type loses its event, and a packet longer than the buffer ends the process.
lost_and_crashed :
    handle_rx 2 2 (4 ∷ []) (done (5, 8 ∷ []) ∷ done (0, 7 ∷ 8 ∷ 9 ∷ []) ∷ [])
    ≡ record { events = []; recycled = 0; lost = 1; end = crashed }
unfolding handle_rx receive_read receive_typed receive_packet lose stop
lost_and_crashed = refl
