-- ===== src/P2p.antt =====
-- vnet/client/client_p2p.go: how two clients evaluate a peer-to-peer stream, and what becomes of
-- it. A stream is its number, a destination is known by its address, a number, and its state is
-- that of Hub/Destination. What a peer sends and which calls fail are arguments; `key` is the text
-- of four bytes, as a number.
pub mod Agreement
pub mod Fallback
mod Tests
use go_vnet.Base.{
  ℕ, ◌+◌, ◌≡◌, Bool, true, false, ◌&&◌, ◌||◌, Option, none, some, List, [], ◌∷◌, ◌++◌, drop, take,
  ltb, ◌==◌, if◌then◌else◌, find, store, delete,
}
use go_vnet.Hub.Destination.{Conn, Destination, new_destination, replace_tx, p2p_instead, is_p2p}

abbrev pub acceptable_latency : ℕ
acceptable_latency = 1000

abbrev pub evaluate_fail : ℕ
evaluate_fail = 1

abbrev pub evaluate_pass : ℕ
evaluate_pass = 2

-- The keys of `connections`: a destination, which `replaceP2P` uses, or an address, which
-- `OnFallback` uses. They are of different types, and so never equal.
pub data Key : Type 0 where
  by_destination : ℕ → Key
  by_ip : ℕ → Key

unfoldable pub key_eq : Key → Key → Bool
key_eq (by_destination a) (by_destination b) = a == b
key_eq (by_destination a) (by_ip b) = false
key_eq (by_ip a) (by_destination b) = false
key_eq (by_ip a) (by_ip b) = a == b

-- `LoadAndDelete`: the stream of a key, and the other entries
unfoldable pub load_and_delete : Key → List (Key × ℕ) → Option ℕ × List (Key × ℕ)
load_and_delete k [] = (none, [])
load_and_delete k ((j, stream) ∷ entries) =
    let rest = load_and_delete k entries in
    if key_eq j k then (some stream, entries) else (rest.0, (j, stream) ∷ rest.1)

unfoldable pub store_connection : Key → ℕ → List (Key × ℕ) → List (Key × ℕ)
store_connection k stream [] = (k, stream) ∷ []
store_connection k stream ((j, old) ∷ entries) =
    if key_eq j k then (k, stream) ∷ entries else (j, old) ∷ store_connection k stream entries

-- What a client keeps: its destinations, `connections`, the streams that a receive loop has been
-- started on, those whose loop has been cancelled, and those closed.
pub record Client : Type 0 where
  pub destinations : List (ℕ × Destination ℕ)
  pub connections : List (Key × ℕ)
  pub receiving : List ℕ
  pub cancelled : List ℕ
  pub closed : List ℕ

unfoldable pub close_stream : ℕ → Client → Client
close_stream stream c = record c { closed = stream ∷ c.closed }

-- `HandleRx` on the stream
unfoldable pub start_receiving : ℕ → Client → Client
start_receiving stream c = record c { receiving = stream ∷ c.receiving }

-- `cancelAll`
unfoldable pub cancel_all : ℕ → Client → Client
cancel_all stream c = close_stream stream (record c { cancelled = stream ∷ c.cancelled })

-- the end of `replaceP2P`, with what `ReplaceTx` gives
unfoldable pub registered : ℕ → ℕ → Destination ℕ × Bool → Client → Client
registered stream ip (d, false) c = cancel_all stream c
registered stream ip (d, true) c = record c {
  destinations = store ip d c.destinations;
  connections = store_connection (by_destination ip) stream c.connections;
}

unfoldable pub replace_at : ℕ → ℕ → Option (Destination ℕ) → Client → Client
replace_at stream ip none c = c
replace_at stream ip (some d) c =
    registered stream ip (replace_tx (p2p_instead stream) d) (start_receiving stream c)

-- `replaceP2P`
unfoldable pub replace_p2p : ℕ → ℕ → Client → Client
replace_p2p stream ip c = replace_at stream ip (find ip c.destinations) c

-- how a call of a stream goes
pub data Call (A : Type 0) : Type 0 where
  answered : A → Call A
  broken : Call A

-- `evaluateAndReplaceP2PTx`, up to the first byte: the last four of the sixteen bytes of the own
-- address
unfoldable pub ping_packet : List ℕ → List ℕ
ping_packet own = take 4 (drop 12 own)

-- the rest of it: the byte that comes back, and the milliseconds since the start. The result is the
-- verdict that is written, whose write may fail unseen, the client, and whether there is no error.
unfoldable pub after_ping :
    ℕ → ℕ → ℕ → Call (Unit {0}) → Call (Unit {0}) → Client → Option ℕ × Client × Bool
after_ping cost stream ip broken read c = (none, c, false)
after_ping cost stream ip (answered t) broken c = (none, c, false)
after_ping cost stream ip (answered t) (answered u) c =
    if ltb cost acceptable_latency
    then (some evaluate_pass, replace_p2p stream ip c, true)
    else (some evaluate_fail, close_stream stream c, false)

-- the last part of `evaluateAndReplaceP2PRx`: the verdict of the other side
unfoldable pub judged : ℕ → Option ℕ → Call ℕ → Client → Client × Bool
judged stream ip broken c = (c, false)
judged stream ip (answered verdict) c =
    if verdict == evaluate_fail
    then (close_stream stream c, false)
    else if verdict == evaluate_pass
    then (elim ip [ none ↦ c | some d ↦ replace_p2p stream d c ], true)
    else (c, false)

-- `evaluateAndReplaceP2PRx`: the packet, the write of the answer and the verdict; `route` is
-- `RouteString`
unfoldable pub evaluate_rx :
    (List ℕ → ℕ)
    → (ℕ → Option ℕ)
    → ℕ
    → Call (List ℕ)
    → Call (Unit {0})
    → Call ℕ
    → Client
    → Client × Bool
evaluate_rx key route stream broken write verdict c = (c, false)
evaluate_rx key route stream (answered ip) broken verdict c = (c, false)
evaluate_rx key route stream (answered ip) (answered t) verdict c =
    judged stream (route (key ip)) verdict c

unfoldable pub known : ℕ → List (ℕ × ℕ) → Bool
known peer [] = false
known peer ((ip, id) ∷ mapping) = (id == peer) || known peer mapping

-- `handleP2PStreamRx`: a stream of the remote peer `peer`, which `mapping` has to know
unfoldable pub handle_stream : List (ℕ × ℕ) → ℕ → ℕ → (Client → Client × Bool) → Client → Client
handle_stream mapping peer stream evaluate c =
    if known peer mapping then (evaluate c).0 else close_stream stream c

abbrev pub type_of : Option Conn → Bool
type_of tx = is_p2p tx

unfoldable pub cancelled_by : Option ℕ × List (Key × ℕ) → Client → Client
cancelled_by (none, entries) c = c
cancelled_by (some stream, entries) c = cancel_all stream (record c { connections = entries })

-- `OnFallback` of the destination with this address, from the connection `rw`
unfoldable pub on_fallback : ℕ → Conn → Client → Client
on_fallback ip rw c =
    if rw.p2p then cancelled_by (load_and_delete (by_ip ip) c.connections) c else c
