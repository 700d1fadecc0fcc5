-- ===== src/Server/Sessions.antt =====
-- vnet/server/server.go and vnet/server/session.go: the sessions of a server from their handshake
-- to their release. The server's map of sessions, the routes of the network and its allocated
-- devices are maps from addresses; the clock is an argument, in nanoseconds.
use go_vnet.Base.{
  ℕ, ◌+◌, ◌%◌, ◌^◌, Option, none, some, List, [], ◌∷◌, ltb, if◌then◌else◌, store, delete,
}

-- a session: `last_ping` is `storage[last_ping]`, `seen` the time that is stored under the address
-- instead
pub record Session : Type 0 where
  pub id : ℕ
  pub last_ping : Option ℕ
  pub seen : Option ℕ

-- `closed` has the sessions whose connection the server has closed, `version` is
-- `peerMappingVersion`. `devices` are the sessions that the network has registered, by address, and
-- `addresses` the addresses that its pool has assigned, each with the session that it was assigned
-- to.
pub record Server : Type 0 where
  pub sessions : List (ℕ × Session)
  pub routes : List (ℕ × ℕ)
  pub devices : List (ℕ × ℕ)
  pub addresses : List (ℕ × ℕ)
  pub closed : List ℕ
  pub version : ℕ

unfoldable pub new_session : ℕ → Session
new_session id = record { id = id; last_ping = none; seen = none }

-- the end of `AcquireDevice`: first the address, and when the quotas are found the device
unfoldable pub assign_address : ℕ → ℕ → Server → Server
assign_address ip id s = record s { addresses = store ip id s.addresses }

unfoldable pub acquire_device : ℕ → ℕ → Server → Server
acquire_device ip id s = record (assign_address ip id s) { devices = store ip id s.devices }

-- what follows the handshake
unfoldable pub store_session : ℕ → ℕ → Server → Server
store_session ip id s = record s {
  sessions = store ip (new_session id) s.sessions;
  routes = store ip id s.routes;
}

unfoldable pub close_session : ℕ → Server → Server
close_session id s = record s { closed = id ∷ s.closed }

unfoldable pub release_device : ℕ → Server → Server
release_device ip s = record s { devices = delete ip s.devices; addresses = delete ip s.addresses }

-- the rest of `Release`
unfoldable pub unregister_session : ℕ → ℕ → Server → Server
unregister_session ip id s = close_session id (record s { routes = delete ip s.routes })

-- `Session.Release`
unfoldable pub release_session : ℕ → ℕ → Server → Server
release_session ip id s = unregister_session ip id (release_device ip s)

-- what `handleSession` does after `Release`
unfoldable pub forget_session : ℕ → Server → Server
forget_session ip s = record s {
  sessions = delete ip s.sessions;
  version = (s.version + 1) % 2 ^ 64;
}

unfoldable pub release : ℕ → ℕ → Server → Server
release ip id s = forget_session ip (release_session ip id s)

-- A client that connects again with its last session: `AcquireDevice` of
-- manager/server/internal/logic/network/device.go releases that session and gives its address to
-- the new one, which the server then serves.
unfoldable pub login_again : ℕ → ℕ → ℕ → Server → Server
login_again ip last id s = store_session ip id (acquire_device ip id (release_session ip last s))

-- How the life of a session ends. The handshake fails before `AcquireDevice` has released the last
-- session of the client, or after it, without an address or with one, when a quota is not found.
pub data Outcome : Type 0 where
  handshake_failed : Outcome
  assign_failed : Outcome
  quotas_missing : Outcome
  adaptor_failed : Outcome
  quota_failed : Outcome
  served : Outcome

-- `AcquireDevice` releases the last session of the client, if it names one that the network has;
-- this is the address and the id of that session.
unfoldable pub release_last : Option (ℕ × ℕ) → Server → Server
release_last none s = s
release_last (some (ip, last)) s = release_session ip last s

-- `handleSession` behind that
unfoldable pub end_session : Outcome → ℕ → ℕ → Server → Server
end_session handshake_failed ip id s = close_session id s
end_session assign_failed ip id s = close_session id s
end_session quotas_missing ip id s = close_session id (assign_address ip id s)
end_session adaptor_failed ip id s = store_session ip id (acquire_device ip id s)
end_session quota_failed ip id s = close_session id (store_session ip id (acquire_device ip id s))
end_session served ip id s = release ip id (store_session ip id (acquire_device ip id s))

-- what the handshake releases
unfoldable pub released_last : Outcome → Option (ℕ × ℕ) → Server → Server
released_last handshake_failed last s = s
released_last assign_failed last s = release_last last s
released_last quotas_missing last s = release_last last s
released_last adaptor_failed last s = release_last last s
released_last quota_failed last s = release_last last s
released_last served last s = release_last last s

-- `handleSession`, from the handshake to its return
unfoldable pub handle_session : Outcome → Option (ℕ × ℕ) → ℕ → ℕ → Server → Server
handle_session o last ip id s = end_session o ip id (released_last o last s)

abbrev pub ping_timeout : ℕ
ping_timeout = 10000000000

-- the ping of a client
unfoldable pub ping : ℕ → Session → Session
ping now ss = record ss { last_ping = some now }

-- one session of a round of `checkStatusLoop`: what it becomes, or none when it is stopped and
-- deleted
unfoldable pub check_session : ℕ → Option ℕ → Session → Option Session
check_session now none ss = some (record ss { seen = some now })
check_session now (some last) ss = if ltb (last + ping_timeout) now then none else some ss

unfoldable pub checked : ℕ → Option Session → List (ℕ × Session) → List (ℕ × Session)
checked ip none rest = rest
checked ip (some ss) rest = (ip, ss) ∷ rest

-- a round of `checkStatusLoop` on the map of sessions
unfoldable pub check_status : ℕ → List (ℕ × Session) → List (ℕ × Session)
check_status now [] = []
check_status now ((ip, ss) ∷ sessions) =
    checked ip (check_session now ss.last_ping ss) (check_status now sessions)
