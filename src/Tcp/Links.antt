-- ===== src/Tcp/Links.antt =====
-- vnet/client/client_tcp.go: `tcpClient` and the connections it holds. A connection is its number,
-- an address its text as a number; what dialing and the other side give is an argument. The
-- connections that were opened and closed are kept as lists, the latest first. Nobody sends on
-- `sig` or closes it before `Close` looks at it, so that `Close` goes past it.
pub mod Counting
pub mod Closed
pub mod Sending
pub mod Stuck
mod Tests
use go_vnet.Base.{
  ℕ, Bool, true, false, Option, none, some, List, [], ◌∷◌, ◌++◌, ◌==◌, if◌then◌else◌, find, store,
  delete,
}
use go_vnet.Tcp.{
  Request, written, invalid_type, unparsed, request, dispatch_type_control, dispatch_type_ipv4,
}

pub record TcpClient : Type 0 where
  pub control : Option ℕ
  pub rx : Option ℕ
  pub conn : List (ℕ × ℕ)
  pub receiving : List ℕ
  pub opened : List ℕ
  pub closed : List ℕ

unfoldable pub new_tcp_client : TcpClient
new_tcp_client = record {
  control = none;
  rx = none;
  conn = [];
  receiving = [];
  opened = [];
  closed = [];
}

-- a connection that was dialed: whether a write on it fails, and the byte that is read within the
-- timeout
pub record Wire : Type 0 where
  pub number : ℕ
  pub write_fails : Bool
  pub ack : Option ℕ

pub data Dispatch : Type 0 where
  succeeded : Dispatch
  failed : Dispatch
  stopped : Dispatch

unfoldable pub acknowledged_by : Option ℕ → Dispatch
acknowledged_by none = failed
acknowledged_by (some ack) = if ack == 1 then succeeded else failed

-- `dispatch`, with the packet it makes; it is stopped by a panic
unfoldable pub dispatch : Wire → Request → Dispatch
dispatch w (written packet) = if w.write_fails then failed else acknowledged_by w.ack
dispatch w invalid_type = failed
dispatch w unparsed = stopped

unfoldable pub open_conn : ℕ → TcpClient → TcpClient
open_conn n c = record c { opened = n ∷ c.opened }

unfoldable pub close_conn : ℕ → TcpClient → TcpClient
close_conn n c = record c { closed = n ∷ c.closed }

unfoldable pub set_up_by : Dispatch → ℕ → TcpClient → TcpClient × Dispatch
set_up_by succeeded n c = (c, succeeded)
set_up_by failed n c = (close_conn n c, failed)
set_up_by stopped n c = (c, stopped)

-- what `Dial` returns: `no_writer` is a nil writer without an error
pub data Dialed : Type 0 where
  writer : ℕ → Dialed
  no_writer : Dialed
  dial_error : Dialed
  dial_panic : Dialed

unfoldable pub connect : Dispatch → ℕ → ℕ → ℕ → TcpClient → TcpClient × Dialed
connect failed ip dst n c = (close_conn n c, dial_error)
connect stopped ip dst n c = (c, dial_panic)
connect succeeded ip dst n c =
    if dst == ip
    then (record c { rx = some n; receiving = n ∷ c.receiving }, no_writer)
    else (record c { conn = store dst n c.conn }, writer n)

module _ (to4 to16 : ℕ → Option (List ℕ)) where
  -- `Setup`; none when dialing fails. The addresses are not read.
  unfoldable pub setup : Option Wire → TcpClient → TcpClient × Dispatch
  setup none c = (record c { control = none }, failed)
  setup (some w) c =
      set_up_by (dispatch w (request to4 to16 dispatch_type_control 0 0)) w.number
        (open_conn w.number (record c { control = some w.number }))

  -- `Dial` when it has found no connection; `ip` is the address of the session
  unfoldable pub dial_new : ℕ → ℕ → Option Wire → TcpClient → TcpClient × Dialed
  dial_new ip dst none c = (c, dial_error)
  dial_new ip dst (some w) c =
      connect (dispatch w (request to4 to16 dispatch_type_ipv4 ip dst)) ip dst w.number
        (open_conn w.number c)

  unfoldable pub dial_found : Option ℕ → ℕ → ℕ → Option Wire → TcpClient → TcpClient × Dialed
  dial_found (some n) ip dst w c = (c, writer n)
  dial_found none ip dst w c = dial_new ip dst w c

  unfoldable pub dial : ℕ → ℕ → Option Wire → TcpClient → TcpClient × Dialed
  dial ip dst w c = dial_found (find dst c.conn) ip dst w c

  -- `AfterHandshake`
  unfoldable pub after_handshake : ℕ → Option Wire → TcpClient → TcpClient
  after_handshake ip w c = (dial ip ip w c).0

unfoldable pub close_found : Option ℕ → ℕ → TcpClient → TcpClient
close_found none dst c = c
close_found (some n) dst c = close_conn n (record c { conn = delete dst c.conn })

-- `CloseDst`, and `OnError` for an error of this destination
unfoldable pub close_dst : ℕ → TcpClient → TcpClient
close_dst dst c = close_found (find dst c.conn) dst c

unfoldable pub given : Option ℕ → List ℕ
given none = []
given (some n) = n ∷ []

unfoldable pub values : List (ℕ × ℕ) → List ℕ
values [] = []
values ((k, n) ∷ entries) = n ∷ values entries

unfoldable pub close : TcpClient → TcpClient
close c = record c {
  control = none;
  rx = none;
  conn = [];
  closed = values c.conn ++ (given c.rx ++ (given c.control ++ c.closed));
}

-- what the hub and the synchronization of routes do with the client
pub data Step : Type 0 where
  dials : ℕ → Option Wire → Step
  closes : ℕ → Step

unfoldable pub dials_others : ℕ → List Step → Bool
dials_others ip [] = true
dials_others ip (dials dst w ∷ steps) = if dst == ip then false else dials_others ip steps
dials_others ip (closes dst ∷ steps) = dials_others ip steps

module _ (to4 to16 : ℕ → Option (List ℕ)) where
  unfoldable pub step : ℕ → Step → TcpClient → TcpClient
  step ip (dials dst w) c = (dial to4 to16 ip dst w c).0
  step ip (closes dst) c = close_dst dst c

  unfoldable pub run : ℕ → List Step → TcpClient → TcpClient
  run ip [] c = c
  run ip (s ∷ steps) c = run ip steps (step ip s c)

  -- from `Setup` to `Close`
  unfoldable pub life : ℕ → Wire → Option Wire → List Step → TcpClient
  life ip w rx steps =
      close
        (run ip steps (after_handshake to4 to16 ip rx (setup to4 to16 (some w) new_tcp_client).0))
