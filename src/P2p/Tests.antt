-- ===== src/P2p/Tests.antt =====
-- The client 10.0.0.1 dials the client 10.0.0.2; each has a connection to the other over the
-- server.
use go_vnet.Base.{ℕ, ◌≡◌, refl, true, false, none, some, List, [], ◌∷◌, ◌++◌, find, replicate}
use go_vnet.Hub.Destination.{Conn, Destination, replace_tx, replaced_tx, p2p_instead, is_p2p}
use go_vnet.P2p.{
  Client, answered, ping_packet, after_ping, evaluate_rx, on_fallback, replace_p2p, replace_at,
  registered, start_receiving, by_destination, store_connection, handle_stream, known, close_stream,
}
use go_vnet.P2p.Agreement.{upgraded, as_call, evaluate_agree}
use go_vnet.P2p.Fallback.{replaces, run, on_fallback-keeps}

abbrev over_server : Conn
over_server = record { number = 1; p2p = false }

abbrev plain : Destination ℕ
plain = record {
  tx = some over_server;
  fallback = none;
  events = [];
  errors = [];
  fallbacks = [];
  written = [];
  recycled = [];
}

abbrev client : ℕ → Client
client ip = record {
  destinations = (ip, plain) ∷ [];
  connections = [];
  receiving = [];
  cancelled = [];
  closed = [];
}

abbrev address : List ℕ
address = replicate 12 0 ++ 10 ∷ 0 ∷ 0 ∷ 1 ∷ []

-- the last byte
abbrev key : List ℕ → ℕ
key [] = 0
key (b ∷ []) = b
key (b ∷ c ∷ bytes) = key (c ∷ bytes)

evaluate_agree_example :
    (tx : Client) × (rx : Client) × ((after_ping 999 7 2 (answered tt) (answered tt) (client 2)).1
      ≡ tx)
    × ((evaluate_rx key some 8
          (answered (10 ∷ 0 ∷ 0 ∷ 1 ∷ []))
          (answered tt)
          (as_call (after_ping 999 7 2 (answered tt) (answered tt) (client 2)).0)
          (client 1)).0
        ≡ rx)
    × (find 2 tx.destinations ≡ some (upgraded 7 plain))
    × (find 1 rx.destinations ≡ some (upgraded 8 plain))
    × (tx.closed ≡ [])
    × (rx.closed ≡ [])
unfolding ping_packet find is_p2p
evaluate_agree_example =
    evaluate_agree key some address 999 7 8 2 1 plain plain (client 2) (client 1)
      (record { here = refl; no_fallback = refl; not_p2p = refl })
      (record { here = refl; no_fallback = refl; not_p2p = refl }) refl

on_fallback-keeps_example :
    on_fallback 2 (record { number = 7; p2p = true }) (run (replaces 7 2 ∷ []) (client 2))
    ≡ run (replaces 7 2 ∷ []) (client 2)
on_fallback-keeps_example =
    on_fallback-keeps (replaces 7 2 ∷ []) (client 2) 2 (record { number = 7; p2p = true }) refl

-- the entry is there
registered_there : (run (replaces 7 2 ∷ []) (client 2)).connections ≡ (by_destination 2, 7) ∷ []
unfolding replace_p2p replace_at registered start_receiving store_connection replace_tx replaced_tx
    p2p_instead is_p2p find
registered_there = refl

-- a stream of a peer that the mapping does not have is closed
unknown_peer :
    handle_stream ((1, 40) ∷ []) 41 9 (λ c. (c, true)) (client 1) ≡ close_stream 9 (client 1)
unfolding handle_stream known
unknown_peer = refl
