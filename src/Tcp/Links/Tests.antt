-- ===== src/Tcp/Links/Tests.antt =====
-- A TCP client of the address 1, and its connections 200 and above.
use go_vnet.Base.{
  ℕ, ◌/◌, ◌%◌, ◌≡◌, refl, arith, true, false, Option, none, some, List, [], ◌∷◌, find, store,
  delete,
}
use go_vnet.Tcp.{request, addressed}
use go_vnet.Hub.Destination.{Conn, answered}
use go_vnet.Tcp.Links.{
  Wire, Step, dials, closes, new_tcp_client, dial_new, close, life, connect, dispatch,
  acknowledged_by, open_conn, values, given, run, step, dial, dial_found, close_dst, close_found,
  after_handshake, setup, set_up_by, close_conn, dials_others,
}
use go_vnet.Tcp.Links.Counting.{count}
use go_vnet.Tcp.Links.Closed.{life-closed}
use go_vnet.Tcp.Links.Sending.{Link, Act, pushes, sends, acts, is_closed}
use go_vnet.Tcp.Links.Stuck.{write_error-kept}

abbrev to16 : ℕ → Option (List ℕ)
to16 host = none

abbrev control_wire : Wire
control_wire = record { number = 200; write_fails = false; ack = some 1 }

abbrev first_wire : Wire
first_wire = record { number = 201; write_fails = false; ack = some 1 }

abbrev second_wire : Wire
second_wire = record { number = 202; write_fails = false; ack = some 1 }

abbrev refusing_wire : Wire
refusing_wire = record { number = 203; write_fails = false; ack = some 0 }

-- every text as an address of 10.0.0.0/8
abbrev all_to4 : ℕ → Option (List ℕ)
all_to4 host = some (10 ∷ host / 65536 % 256 ∷ host / 256 % 256 ∷ host % 256 ∷ [])

-- The device is 1: it dials 2 and 3, which is refused, loses 2 and dials it again.
abbrev some_steps : List Step
some_steps =
    dials 2 (some second_wire)
    ∷ dials 3 (some refusing_wire)
    ∷ dials 2 none
    ∷ closes 2
    ∷ dials 2 none
    ∷ []

life-closed_example :
    ((n : ℕ)
      → count n (life all_to4 to16 1 control_wire (some first_wire) some_steps).closed
        ≡ count n (life all_to4 to16 1 control_wire (some first_wire) some_steps).opened)
    × ((life all_to4 to16 1 control_wire (some first_wire) some_steps).control ≡ none)
    × ((life all_to4 to16 1 control_wire (some first_wire) some_steps).rx ≡ none)
    × ((life all_to4 to16 1 control_wire (some first_wire) some_steps).conn ≡ [])
unfolding dials_others
life-closed_example =
    life-closed all_to4 to16 (λ a. (10 ∷ a / 65536 % 256 ∷ a / 256 % 256 ∷ a % 256 ∷ [], refl)) 1
      control_wire (some first_wire) some_steps refl refl refl

opens_four :
    (life all_to4 to16 1 control_wire (some first_wire) some_steps).opened
    ≡ 203 ∷ 202 ∷ 201 ∷ 200 ∷ []
unfolding life run step dial dial_found find close_dst close_found after_handshake setup set_up_by
    close_conn delete dial_new connect dispatch request addressed acknowledged_by open_conn
    new_tcp_client store close values given
opens_four = refl

-- Two calls of `Dial` for one address that both found no connection: the first connection is open
-- for good.
two_dials :
    let after =
      (dial_new all_to4 to16 1 2
        (some second_wire)
        (dial_new all_to4 to16 1 2 (some first_wire) new_tcp_client).0).0 in
    (after.opened ≡ 202 ∷ 201 ∷ [])
    × (after.conn ≡ (2, 202) ∷ [])
    × ((close after).closed ≡ 202 ∷ [])
unfolding dial_new connect dispatch request addressed acknowledged_by open_conn new_tcp_client store
    close values given
two_dials = (refl, refl, refl)

abbrev sending_conn : Conn
sending_conn = record { number = 202; p2p = false }

abbrev sending_link : Link ℕ
sending_link = record {
  client = record {
    control = some 200;
    rx = some 201;
    conn = (2, 202) ∷ [];
    receiving = 201 ∷ [];
    opened = 202 ∷ 201 ∷ 200 ∷ [];
    closed = [];
  };
  destination = record {
    tx = some sending_conn;
    fallback = none;
    events = (7 ∷ []) ∷ [];
    errors = [];
    fallbacks = [];
    written = [];
    recycled = [];
  };
}

-- the events 8 and 9, with the network in order
abbrev more_acts : List (Act ℕ)
more_acts =
    pushes (record { tries = false; enabled = false; mapped = false; stream = none })
      (some first_wire) (λ n. answered (record { number = n; p2p = false }) 1) (8 ∷ 9 ∷ [])
    ∷ sends (λ c. false)
    ∷ []

write_error-kept_example :
    (e : Link ℕ) × (acts all_to4 to16 1 2 4 (sends (λ c. true) ∷ more_acts) sending_link ≡ some e)
    × (e.destination.tx ≡ some sending_conn)
    × (is_closed 202 e.client.closed ≡ true)
    × (e.client.opened ≡ 202 ∷ 201 ∷ 200 ∷ [])
unfolding find
write_error-kept_example =
    write_error-kept all_to4 to16 1 2 4 sending_conn (λ c. true) (7 ∷ []) [] sending_link more_acts
      refl refl refl refl (omega arith) (omega arith, tt) refl (omega arith, tt)
