-- ===== src/Tcp/Links/Sending.antt =====
-- vnet/client/hub/hub_tx.go and vnet/client/client_tcp.go: a `Destination` whose `TxAdaptor` is the
-- TCP client. `PushTxEvent` dials through the client, and `OnError` closes the connection of the
-- destination. A write fails on a connection that the client has closed.
use go_vnet.Base.{
  ℕ, Bool, true, false, ◌||◌, Option, none, some, List, [], ◌∷◌, length, ltb, ◌==◌, if◌then◌else◌,
  ◌>>=◌,
}
use go_vnet.Hub.Destination.{
  Conn, Destination, Answer, undialed, Peer, enqueue, push_tx_event, tx_round,
}
use go_vnet.Tcp.Links.{
  TcpClient, Wire, Dialed, writer, no_writer, dial_error, dial_panic, dial, close_dst,
}

pub record Link (P : Type 0) : Type 0 where
  pub client : TcpClient
  pub destination : Destination P

unfoldable pub is_closed : ℕ → List ℕ → Bool
is_closed n [] = false
is_closed n (x ∷ xs) = if x == n then true else is_closed n xs

-- `negotiate` after `Dial`: `reply` is what the negotiation over a connection comes to. Without a
-- writer it is a call on nil.
unfoldable pub answer_of : (ℕ → Answer) → Dialed → Option Answer
answer_of reply (writer n) = some (reply n)
answer_of reply no_writer = none
answer_of reply dial_error = some undialed
answer_of reply dial_panic = none

-- what the hub and the loop of the destination do
pub data Act (P : Type 0) : Type 0 where
  pushes : Peer → Option Wire → (ℕ → Answer) → List P → Act P
  sends : (Conn → Bool) → Act P

module _ {P : Type 0} where
  -- `OnError` of the client for an error that `d` has and `before` has not
  unfoldable pub reported : ℕ → Destination P → TcpClient → Destination P → Link P
  reported dst before c d = record {
    client = if ltb (length before.errors) (length d.errors) then close_dst dst c else c;
    destination = d;
  }

  unfoldable pub push_dialed :
      ℕ → Peer → (ℕ → Answer) → List P → Destination P → TcpClient × Dialed → Option (Link P)
  push_dialed dst peer reply event d (c, dialed) = answer_of reply dialed >>= λ answer.
      some (reported dst d c (push_tx_event peer answer event d))

  unfoldable pub push_on :
      Option Conn → TcpClient × Dialed → ℕ → Peer → (ℕ → Answer) → List P → Link P → Option (Link P)
  push_on (some k) dialed dst peer reply event l =
      some (record l { destination = enqueue event l.destination })
  push_on none dialed dst peer reply event l = push_dialed dst peer reply event l.destination dialed

  -- `PushTxEvent`
  unfoldable pub push_link :
      (ℕ → Option (List ℕ))
      → (ℕ → Option (List ℕ))
      → ℕ
      → ℕ
      → Peer
      → Option Wire
      → (ℕ → Answer)
      → List P
      → Link P
      → Option (Link P)
  push_link to4 to16 ip dst peer wire reply event l =
      push_on l.destination.tx (dial to4 to16 ip dst wire l.client) dst peer reply event l

  -- a round of `txLoopN`; `breaks` says on which connections the network fails
  unfoldable pub round_link : ℕ → ℕ → (Conn → Bool) → Link P → Option (Link P)
  round_link dst max_buf breaks l =
      tx_round max_buf (λ k. breaks k || is_closed k.number l.client.closed) l.destination >>= λ d.
      some (reported dst l.destination l.client d)

  unfoldable pub act :
      (ℕ → Option (List ℕ)) → (ℕ → Option (List ℕ)) → ℕ → ℕ → ℕ → Act P → Link P → Option (Link P)
  act to4 to16 ip dst max_buf (pushes peer wire reply event) l =
      push_link to4 to16 ip dst peer wire reply event l
  act to4 to16 ip dst max_buf (sends breaks) l = round_link dst max_buf breaks l

  unfoldable pub acts :
      (ℕ → Option (List ℕ))
      → (ℕ → Option (List ℕ))
      → ℕ
      → ℕ
      → ℕ
      → List (Act P)
      → Link P
      → Option (Link P)
  acts to4 to16 ip dst max_buf [] l = some l
  acts to4 to16 ip dst max_buf (a ∷ later) l =
      act to4 to16 ip dst max_buf a l >>= acts to4 to16 ip dst max_buf later
