-- ===== src/Tcp/Tests.antt =====
-- A server with the sessions 7 of 10.0.0.1 and 8 of 10.0.0.2. Connections are numbers, and the text
-- of an address is its number.
use go_vnet.Base.{
  true, store, ℕ, ◌+◌, ◌*◌, ◌≡◌, refl, Option, none, some, List, [], ◌∷◌, ◌++◌, find, replicate,
  ltb, if◌then◌else◌,
}
use go_vnet.Tcp.{
  dispatch_type_ipv4, dispatch_type_ipv6, written, addressed, request, TcpServer, acknowledged,
  waiting, refer, established, hand_over, receives, leave, accept_transport, received_from, refused,
  panicked, dispatch_conn,
}
use go_vnet.Tcp.Dispatching.{IsEstablished, dispatch_conn-request}

abbrev number_from : ℕ → List ℕ → ℕ
number_from n [] = n
number_from n (byte ∷ bytes) = number_from (n * 256 + byte) bytes

abbrev key : List ℕ → ℕ
key = number_from 0

-- the hosts of 10.0.0.0/24
abbrev to4 : ℕ → Option (List ℕ)
to4 host = if ltb host 256 then some (10 ∷ 0 ∷ 0 ∷ host ∷ []) else none

abbrev to16 : ℕ → Option (List ℕ)
to16 host = some (replicate 15 0 ++ host ∷ [])

-- the session of 10.0.0.1 waits in `AcceptTransport`
abbrev server : TcpServer ℕ
server = record {
  sessions = (167772161, 7) ∷ (167772162, 8) ∷ [];
  transport_conn = [];
  rx = (7, 100) ∷ [];
  accepting = true;
  accepted = [];
  control_senders = [];
  receivers = 167772161 ∷ [];
  taken = [];
  senders = [];
}

dispatch_conn-request_example :
    (packet : List ℕ) × (request to4 to16 dispatch_type_ipv4 1 2 ≡ written packet)
    × IsEstablished 167772161 167772162 102 8 server (dispatch_conn key 102 packet server)
unfolding find
dispatch_conn-request_example =
    dispatch_conn-request to4 to16 key 1 2 (10 ∷ 0 ∷ 0 ∷ 1 ∷ []) (10 ∷ 0 ∷ 0 ∷ 2 ∷ []) 8 102 server
      refl refl refl refl refl

-- The session gets this connection. A second one waits, without an acknowledgement.
second_waits :
    let first = dispatch_conn key 102 (4 ∷ 10 ∷ 0 ∷ 0 ∷ 1 ∷ 10 ∷ 0 ∷ 0 ∷ 2 ∷ []) server in
    let second = dispatch_conn key 103 (4 ∷ 10 ∷ 0 ∷ 0 ∷ 1 ∷ 10 ∷ 0 ∷ 0 ∷ 2 ∷ []) first.0 in
    (first.1 ≡ acknowledged)
    × (second.1 ≡ waiting)
    × ((accept_transport 167772161 second.0).1 ≡ some 103)
unfolding find store dispatch_conn refer established hand_over receives leave accept_transport
    received_from
second_waits = (refl, refl, refl)

-- The server refuses the packet that the client writes for two IPv6 addresses.
refuses_ipv6 :
    (packet : List ℕ) × (request to4 to16 dispatch_type_ipv6 1 2 ≡ written packet)
    × (dispatch_conn key 102 packet server ≡ (server, refused))
unfolding request addressed dispatch_conn
refuses_ipv6 = (_, refl, refl)

-- a packet that is read in two parts
panics_on_part : dispatch_conn key 102 (4 ∷ 10 ∷ 0 ∷ 0 ∷ 2 ∷ []) server ≡ (server, panicked)
unfolding dispatch_conn
panics_on_part = refl
