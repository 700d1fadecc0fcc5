-- ===== src/Tcp.antt =====
-- The first packet of a TCP connection: `dispatch` of vnet/client/client_tcp.go writes it,
-- `dispatch` of vnet/server/server_tcp.go reads it, in one read, and hands the connection on.
-- Addresses are parsed by package net: `to4` and `to16` give the bytes of a text, or none; `key` is
-- the text that the server makes of four bytes, as a number. A channel is the list of the
-- connections that wait in it.
pub mod Dispatching
pub mod Links
mod Tests
use go_vnet.Base.{
  ℕ, ◌+◌, ◌≡◌, refl, Bool, true, false, ◌&&◌, Option, none, some, List, [], ◌∷◌, ◌++◌, ap, ◌∙◌,
  arith, length, length-append, take, drop, replicate, ltb, ◌==◌, if◌then◌else◌, Bool-cases, inl,
  inr, find, store, find-store,
}
use mathlib.Core.Path.{subst}
use go_vnet.Protocol.Frames.{take-append, drop-append}

abbrev pub dispatch_type_control : ℕ
dispatch_type_control = 1

abbrev pub dispatch_type_ipv4 : ℕ
dispatch_type_ipv4 = 4

abbrev pub dispatch_type_ipv6 : ℕ
dispatch_type_ipv6 = 6

-- what the client writes; a slice of an address that package net does not parse is a panic
pub data Request : Type 0 where
  written : List ℕ → Request
  invalid_type : Request
  unparsed : Request

-- the buffer of 33 bytes with two addresses in it, and zeros behind them
unfoldable pub addressed : ℕ → ℕ → Option (List ℕ) → Option (List ℕ) → Request
addressed typ padding none to = unparsed
addressed typ padding (some f) none = unparsed
addressed typ padding (some f) (some t) = written (typ ∷ (f ++ (t ++ replicate padding 0)))

-- `tcpClient.dispatch`, up to the write
unfoldable pub request :
    {A : Type 0} → (A → Option (List ℕ)) → (A → Option (List ℕ)) → ℕ → A → A → Request
request to4 to16 typ from to =
    if typ == dispatch_type_control
    then written (typ ∷ replicate 32 0)
    else if typ == dispatch_type_ipv4
    then addressed typ 24 (to4 from) (to4 to)
    else if typ == dispatch_type_ipv6
    then addressed typ 0 (to16 from) (to16 to)
    else invalid_type

-- The maps of the server: the session of an address, the connection of an address, and the
-- connection that a session has stored as "rx". `acceptCh` and the channels `txChs` have no buffer:
-- a connection is handed over when somebody receives. `accepting` is whether `Accept` waits, and
-- `receivers` are the addresses whose sessions wait in `AcceptTransport`; `accepted` and `taken`
-- are what they got, and `control_senders` and `senders` the connections whose dispatch waits to
-- hand them over.
pub record TcpServer (C : Type 0) : Type 0 where
  pub sessions : List (ℕ × ℕ)
  pub transport_conn : List (ℕ × C)
  pub rx : List (ℕ × C)
  pub accepting : Bool
  pub accepted : List C
  pub control_senders : List C
  pub receivers : List ℕ
  pub taken : List (ℕ × C)
  pub senders : List (ℕ × C)

-- The acknowledgement is written, or the connection closed, or the dispatch waits, without an
-- acknowledgement, until the connection is received. The panic of an index out of range leaves the
-- acknowledgement to the deferred function, as there is no error.
pub data Reply : Type 0 where
  acknowledged : Reply
  refused : Reply
  waiting : Reply
  panicked : Reply

unfoldable pub receives : ℕ → List ℕ → Bool
receives k [] = false
receives k (x ∷ xs) = if x == k then true else receives k xs

-- a receiver that has received
unfoldable pub leave : ℕ → List ℕ → List ℕ
leave k [] = []
leave k (x ∷ xs) = let rest = leave k xs in if x == k then xs else x ∷ rest

module _ {C : Type 0} where
  -- the first that waits for the address, and the others
  unfoldable pub take_sender : ℕ → List (ℕ × C) → List (ℕ × C)
  take_sender k [] = []
  take_sender k ((x, c) ∷ senders) =
      let rest = take_sender k senders in if x == k then senders else (x, c) ∷ rest

  -- `tch <- conn`
  unfoldable pub hand_over : ℕ → C → TcpServer C → TcpServer C × Reply
  hand_over src conn s =
      if receives src s.receivers
      then (
        record s { receivers = leave src s.receivers; taken = s.taken ++ (src, conn) ∷ [] },
        acknowledged,
      )
      else (record s { senders = s.senders ++ (src, conn) ∷ [] }, waiting)

  unfoldable pub established : ℕ → ℕ → C → ℕ → TcpServer C → TcpServer C × Reply
  established src dst conn id s =
      if src == dst
      then (
        record s { transport_conn = store dst conn s.transport_conn; rx = store id conn s.rx },
        acknowledged,
      )
      else hand_over src conn (record s { transport_conn = store dst conn s.transport_conn })

  unfoldable pub refer : Option ℕ → ℕ → ℕ → C → TcpServer C → TcpServer C × Reply
  refer none src dst conn s = (s, refused)
  refer (some id) src dst conn s = established src dst conn id s

  -- `s.acceptCh <- conn`
  unfoldable pub hand_control : C → TcpServer C → TcpServer C × Reply
  hand_control conn s =
      if s.accepting
      then (record s { accepting = false; accepted = s.accepted ++ conn ∷ [] }, acknowledged)
      else (record s { control_senders = s.control_senders ++ conn ∷ [] }, waiting)

  -- `tcpServer.dispatch`
  unfoldable pub dispatch_conn : (List ℕ → ℕ) → C → List ℕ → TcpServer C → TcpServer C × Reply
  dispatch_conn key conn [] s = (s, panicked)
  dispatch_conn key conn (typ ∷ first) s =
      let dst = key (take 4 (drop 4 first)) in
      if typ == 1
      then hand_control conn s
      else if typ == 4
      then (if ltb (length first) 8
          then (s, panicked)
          else refer (find dst s.sessions) (key (take 4 first)) dst conn s)
      else (s, refused)

  unfoldable pub received_from : Option C → ℕ → TcpServer C → TcpServer C × Option C
  received_from none ip s = (record s { receivers = ip ∷ s.receivers }, none)
  received_from (some conn) ip s = (
    record s { senders = take_sender ip s.senders; taken = s.taken ++ (ip, conn) ∷ [] },
    some conn,
  )

  -- `AcceptTransport` of the session at `ip`: the connection whose dispatch waits, and is then
  -- acknowledged, or none while the session waits for one
  unfoldable pub accept_transport : ℕ → TcpServer C → TcpServer C × Option C
  accept_transport ip s = received_from (find ip s.senders) ip s

  -- `GetDstTransportWriter` of the session `id`
  unfoldable pub get_dst_transport_writer : ℕ → TcpServer C → Option C
  get_dst_transport_writer id s = find id s.rx
