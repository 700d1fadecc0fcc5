-- ===== src/Hub/Destination.antt =====
-- vnet/client/hub/hub_tx.go: `Destination`, the sending end of a route of the client, and how
-- vnet/client/client_p2p.go gives it a peer-to-peer connection. A connection is its number and
-- whether its type is P2P; what dialing, the other side and the peer answer are arguments. The
-- calls of OnError and OnFallback, the packets handed to a connection, and the events given back to
-- the pool are kept as lists, the latest first. The channel is a list without a bound.
pub mod Once
pub mod Negotiating
pub mod Draining
pub mod Failing
use go_vnet.Base.{
  ℕ, zero, suc, Bool, true, false, Option, none, some, List, [], ◌∷◌, ◌++◌, length, ltb, ◌==◌,
  if◌then◌else◌, ◌>>=◌,
}
use go_vnet.Hub.{collect}
use go_vnet.Server.{negotiate_response_success, negotiate_response_quota_exceeded}

pub data Error : Type 0 where
  dial_failed : Error
  write_failed : Error
  read_failed : Error
  no_connection : Error
  negotiate_failed : ℕ → Error
  p2p_failed : Error

pub record Conn : Type 0 where
  pub number : ℕ
  pub p2p : Bool

pub record Destination (P : Type 0) : Type 0 where
  pub tx : Option Conn
  pub fallback : Option Conn
  pub events : List (List P)
  pub errors : List Error
  pub fallbacks : List (Option Conn)
  pub written : List (Conn × List P)
  pub recycled : List (List P)

-- what `Dial` and the negotiation over the connection come to
pub data Answer : Type 0 where
  undialed : Answer
  unwritten : Conn → Answer
  unread : Conn → Answer
  answered : Conn → ℕ → Answer

-- the client's side of P2P: whether `SetP2PDialFunc` was called, whether P2P is enabled, whether
-- the peer of the destination is known, and the connection that dialing the peer and its evaluation
-- give
pub record Peer : Type 0 where
  pub tries : Bool
  pub enabled : Bool
  pub mapped : Bool
  pub stream : Option ℕ

unfoldable pub is_p2p : Option Conn → Bool
is_p2p none = false
is_p2p (some c) = c.p2p

-- the function that `Client.replaceP2P` hands to `ReplaceTx`
unfoldable pub p2p_instead : ℕ → Option Conn → Option Conn
p2p_instead n old = if is_p2p old then none else some (record { number = n; p2p = true })

module _ {P : Type 0} where
  unfoldable pub new_destination : Destination P
  new_destination = record {
    tx = none;
    fallback = none;
    events = [];
    errors = [];
    fallbacks = [];
    written = [];
    recycled = [];
  }

  -- the old connection is kept when there is one
  unfoldable pub replaced_tx : Destination P → Option Conn → Destination P × Bool
  replaced_tx d none = (d, false)
  replaced_tx d (some c) = elim d.tx [
    | none ↦ (record d { tx = some c }, true)
    | some old ↦ (record d { tx = some c; fallback = some old }, true)
  ]

  -- `fn` gives the new connection, or none when nothing is replaced
  unfoldable pub replace_tx : (Option Conn → Option Conn) → Destination P → Destination P × Bool
  replace_tx fn d = elim d.fallback [ some c ↦ (d, false) | none ↦ replaced_tx d (fn d.tx) ]

  unfoldable pub replace_p2p : ℕ → Destination P → Destination P
  replace_p2p n d = (replace_tx (p2p_instead n) d).0

  unfoldable pub try_p2p : Peer → Destination P → Destination P × Option Error
  try_p2p peer d =
      if peer.enabled
      then (if is_p2p d.tx
          then (d, none)
          else if peer.mapped
          then elim peer.stream [ none ↦ (d, some p2p_failed) | some n ↦ (replace_p2p n d, none) ]
          else (d, none))
      else (d, none)

  unfoldable pub negotiated : Peer → Answer → Destination P → Destination P × Option Error
  negotiated peer undialed d = (d, some dial_failed)
  negotiated peer (unwritten c) d = (d, some write_failed)
  negotiated peer (unread c) d = (d, some read_failed)
  negotiated peer (answered c response) d =
      if response == negotiate_response_quota_exceeded
      then (if peer.tries then try_p2p peer d else (d, some no_connection))
      else if response == negotiate_response_success
      then ((try_p2p peer (record d { tx = some c })).0, none)
      else (d, some (negotiate_failed response))

  unfoldable pub negotiate : Peer → Answer → Destination P → Destination P × Option Error
  negotiate peer answer d = elim d.tx [ some c ↦ (d, none) | none ↦ negotiated peer answer d ]

  unfoldable pub on_error : Error → Destination P → Destination P
  on_error e d = record d { errors = e ∷ d.errors }

  unfoldable pub enqueue : List P → Destination P → Destination P
  enqueue event d = record d { events = d.events ++ event ∷ [] }

  unfoldable pub push_negotiated : List P → Destination P × Option Error → Destination P
  push_negotiated event (d, some e) = on_error e d
  push_negotiated event (d, none) = enqueue event d

  unfoldable pub push_tx_event : Peer → Answer → List P → Destination P → Destination P
  push_tx_event peer answer event d = elim d.tx [
    | some c ↦ enqueue event d
    | none ↦ push_negotiated event (negotiate peer answer d)
  ]

  unfoldable pub fallback_or_report_error : Error → Destination P → Destination P
  fallback_or_report_error e d = elim d.fallback [
    | some c ↦ record d { tx = some c; fallbacks = d.tx ∷ d.fallbacks }
    | none ↦ on_error e d
  ]

  -- `BatchWrite` on the connection; none is the call on a nil connection. `fails` says which
  -- connections fail.
  unfoldable pub write_tx : (Conn → Bool) → List P → Destination P → Option (Destination P)
  write_tx fails packets d = elim d.tx [
    | none ↦ none
    | some c ↦
        let wrote = record d { written = (c, packets) ∷ d.written } in
        some (if fails c then fallback_or_report_error write_failed wrote else wrote)
  ]

  unfoldable pub give_back : List (List P) → Destination P → Destination P
  give_back returned d = record d { recycled = d.recycled ++ returned }

  unfoldable pub write_collected :
      (Conn → Bool)
      → Destination P
      → Option (List P × List (List P) × List (List P))
      → Option (Destination P)
  write_collected fails d none = none
  write_collected fails d (some (packets, returned, rest)) =
      let taken = record d { events = rest } in
      (if ltb 0 (length packets) then write_tx fails packets taken else some taken) >>= λ w.
      some (give_back returned w)

  unfoldable pub round_of :
      ℕ → (Conn → Bool) → List (List P) → Destination P → Option (Destination P)
  round_of max_buf fails [] d = some d
  round_of max_buf fails (event ∷ queue) d = write_collected fails d (collect max_buf event queue)

  -- a round of `txLoopN` for an event; without one it waits
  unfoldable pub tx_round : ℕ → (Conn → Bool) → Destination P → Option (Destination P)
  tx_round max_buf fails d = round_of max_buf fails d.events d

  -- `Close` closes the fallback and the connection.
  unfoldable pub closed_by : Destination P → List Conn
  closed_by d =
      elim d.fallback [ some c ↦ c ∷ [] | none ↦ [] ] ++ elim d.tx [ some c ↦ c ∷ [] | none ↦ [] ]
