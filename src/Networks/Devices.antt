-- ===== src/Networks/Devices.antt =====
-- manager/server/internal/logic/network/device.go: `AcquireDevice`, on the network of the device,
-- with the pool of addresses of common/addresses/ip_pool.go. `Network.sessions` is the list of its
-- entries, from addresses with their mask to ids of sessions; what the database has of the device
-- is an argument.
use go_vnet.Base.{ℕ, ◌%◌, ◌^◌, Bool, Option, none, some, List, [], ◌∷◌, ltb, ◌==◌, if◌then◌else◌}
use go_vnet.Router.{Text}
use go_vnet.Addresses.{
  IpAllocator, Result, ok, err, text_eq, assign_by_offset, assign_random, release_ip,
}
use go_vnet.Addresses as Addresses

-- a network, with the sessions that were told to stop
pub record Net : Type 0 where
  pub pool : IpAllocator
  pub sessions : List (Text × ℕ)
  pub stopped : List ℕ

-- `fixed_ip` as a uint32, 0 for none, and which rows the database has; the quotas are looked up
-- last
pub record Device : Type 0 where
  pub fixed_ip : ℕ
  pub info_found : Bool
  pub bandwidth_found : Bool
  pub traffic_found : Bool

pub data Failure : Type 0 where
  no_device_info : Failure
  not_assigned : Addresses.Error → Failure
  no_quota : Failure

unfoldable pub store_session : Text → ℕ → List (Text × ℕ) → List (Text × ℕ)
store_session cidr id [] = (cidr, id) ∷ []
store_session cidr id ((c, old) ∷ sessions) =
    if text_eq c cidr then (cidr, id) ∷ sessions else (c, old) ∷ store_session cidr id sessions

unfoldable pub delete_session : Text → List (Text × ℕ) → List (Text × ℕ)
delete_session cidr [] = []
delete_session cidr ((c, id) ∷ sessions) =
    let rest = delete_session cidr sessions in if text_eq c cidr then rest else (c, id) ∷ rest

-- `SessionById`: the address of the session
unfoldable pub session_by_id : ℕ → List (Text × ℕ) → Option Text
session_by_id id [] = none
session_by_id id ((cidr, s) ∷ sessions) = if s == id then some cidr else session_by_id id sessions

-- `RegisterSession`
unfoldable pub register_session : Text → ℕ → Net → Net
register_session cidr id n = record n { sessions = store_session cidr id n.sessions }

-- `ReleaseDevice`
unfoldable pub release_device : Text → Net → Net
release_device cidr n = record n {
  sessions = delete_session cidr n.sessions;
  pool = (release_ip cidr n.pool).0;
}

unfoldable pub stop_found : ℕ → Option Text → Net → Net
stop_found id none n = n
stop_found id (some cidr) n = release_device cidr (record n { stopped = id ∷ n.stopped })

-- the last session of the client, which is stopped and releases its device
unfoldable pub stop_last : Option ℕ → Net → Net
stop_last none n = n
stop_last (some id) n = stop_found id (session_by_id id n.sessions) n

-- the two ways of assigning; `draws` are the random numbers
unfoldable pub assign : (ℕ → ℕ) → ℕ → IpAllocator → IpAllocator × Result Text
assign draws fixed_ip pool =
    if ltb 0 fixed_ip then assign_by_offset (fixed_ip % 2 ^ 32) pool else assign_random draws pool

-- the quotas and the registration, with the address in the pool
unfoldable pub finish : Device → ℕ → IpAllocator × Result Text → Net → Net × (Option Failure)
finish d id (pool, err e) n = (record n { pool = pool }, some (not_assigned e))
finish d id (pool, ok cidr) n =
    if d.bandwidth_found
    then (if d.traffic_found
        then (register_session cidr id (record n { pool = pool }), none)
        else (record n { pool = pool }, some no_quota))
    else (record n { pool = pool }, some no_quota)

unfoldable pub acquire_of : (ℕ → ℕ) → Device → ℕ → Net → Net × (Option Failure)
acquire_of draws d id n =
    if d.info_found
    then finish d id (assign draws d.fixed_ip n.pool) n
    else (n, some no_device_info)

-- `AcquireDevice` for the session `id` of a device in a network that runs
unfoldable pub acquire_device : (ℕ → ℕ) → Device → Option ℕ → ℕ → Net → Net × (Option Failure)
acquire_device draws d last id n = acquire_of draws d id (stop_last last n)
