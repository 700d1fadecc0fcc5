-- ===== src/Lifetime.antt =====
-- vnet/client/client.go: what a client holds from `run` to `ReleaseAll`, with
-- connectP2PSignalingServer and backgroundTryDialP2P of vnet/client/client_p2p.go. What the server,
-- the operating system and the peer-to-peer package answer is the outcome of a run. Each thing that
-- has to be closed is a slot, with how often it was opened and closed.
pub mod Balance
mod Tests
use go_vnet.Base.{ℕ, suc, ◌+◌, Bool, true, false, Option, none, some, List, [], ◌∷◌, if◌then◌else◌}

pub record Slot : Type 0 where
  pub held : Bool
  pub opened : ℕ
  pub closed : ℕ

abbrev pub new_slot : Slot
new_slot = record { held = false; opened = 0; closed = 0 }

-- An assignment to the field: what it held before is not closed.
unfoldable pub open_slot : Slot → Slot
open_slot s = record s { held = true; opened = suc s.opened }

unfoldable pub close_slot : Slot → Slot
close_slot s = if s.held then record s { held = false; closed = suc s.closed } else s

-- `encryptors` counts those in `transport.opts`, `dial_loops` the loops that try peers in the
-- background, and `has_ctx` says whether the context is set.
pub record Client : Type 0 where
  pub hub : Slot
  pub inner : Slot
  pub dev : Slot
  pub host : Slot
  pub manager : Slot
  pub has_ctx : Bool
  pub has_session : Bool
  pub encryptors : ℕ
  pub dial_loops : ℕ

-- `NewClient`
abbrev pub new_client : Client
new_client = record {
  hub = new_slot;
  inner = new_slot;
  dev = new_slot;
  host = new_slot;
  manager = new_slot;
  has_ctx = true;
  has_session = false;
  encryptors = 0;
  dial_loops = 0;
}

-- what becomes of peer-to-peer: it is off or the server has no address, the host is not created, it
-- is created and the server is not reached, or all is done, with or without `ActiveDialPeer`
pub data P2p : Type 0 where
  p2p_off : P2p
  no_host : P2p
  not_registered : P2p
  registered : Bool → P2p

pub data Outcome : Type 0 where
  unsupported_type : Outcome
  setup_failed : Outcome
  handshake_failed : Outcome
  device_failed : Outcome
  -- the device is there, and cannot be found or set up
  device_not_up : Outcome
  -- `encryptor` refuses the key
  key_refused : Outcome
  connected : P2p → Outcome

-- `backgroundTryDialP2P`
unfoldable pub background_try_dial : Bool → Client → Client
background_try_dial active c = if active then record c { dial_loops = suc c.dial_loops } else c

-- `connectP2PSignalingServer`, whose errors are logged only
unfoldable pub connect_p2p : P2p → Client → Client
connect_p2p p2p_off c = c
connect_p2p no_host c = c
connect_p2p not_registered c = record c { host = open_slot c.host }
connect_p2p (registered active) c =
    background_try_dial active (record c { host = open_slot c.host })

-- `run`, up to the connection: the context and the inner client, whose `Setup` may fail
unfoldable pub set_up : Client → Client
set_up c = record c { has_ctx = true; inner = open_slot c.inner }

-- the session and the device
unfoldable pub with_device : Client → Client
with_device c = record c { has_session = true; dev = open_slot c.dev }

-- the encryptor, the manager and the hub
unfoldable pub with_hub : Client → Client
with_hub c = record c {
  encryptors = suc c.encryptors;
  manager = open_slot c.manager;
  hub = open_slot c.hub;
}

-- `run`
unfoldable pub run : Outcome → Client → Client
run unsupported_type c = record c { has_ctx = true }
run setup_failed c = set_up c
run handshake_failed c = set_up c
run device_failed c = record (set_up c) { has_session = true }
run device_not_up c = with_device (set_up c)
run key_refused c = with_device (set_up c)
run (connected p) c = connect_p2p p (with_hub (with_device (set_up c)))

-- `ReleaseAll`
unfoldable pub release_all : Client → Client
release_all c = record c {
  hub = close_slot c.hub;
  inner = close_slot c.inner;
  dev = close_slot c.dev;
  host = close_slot c.host;
  manager = close_slot c.manager;
  has_session = false;
  has_ctx = false;
}

-- `Reconnect`
unfoldable pub reconnect : Outcome → Client → Client
reconnect o c = run o (release_all c)

-- a round of one of the loops in the background, none is a panic: it reads the context and the
-- hub's router
unfoldable pub dial_round : Client → Option Client
dial_round c = if c.has_ctx then (if c.hub.held then some c else none) else none
