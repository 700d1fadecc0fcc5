-- ===== src/Networks.antt =====
-- manager/server/internal/logic/network/network.go and vnet/server/network_mgr.go: the networks in
-- the database and those that run. Ids and texts are numbers, with 0 for the empty text. The
-- database is the map of its rows; what fails in it is an argument, and so is which networks
-- `NewIPAllocator` accepts. `Networks.Devices` is about one network.
pub mod Backed
pub mod Devices
pub mod Locked
mod Tests
use go_vnet.Base.{
  ℕ, Bool, true, false, Option, none, some, List, [], ◌∷◌, ◌++◌, ◌==◌, if◌then◌else◌, map, find,
  store, delete,
}

-- a row of the table
pub record Row : Type 0 where
  pub cidr : ℕ
  pub name : ℕ
  pub mtu : ℕ
  pub description : ℕ

-- a network that runs, with its sessions
pub record Network : Type 0 where
  pub cidr : ℕ
  pub mtu : ℕ
  pub sessions : List ℕ

-- `stopped` has the sessions that were told to stop
pub record Manager : Type 0 where
  pub rows : List (ℕ × Row)
  pub networks : List (ℕ × Network)
  pub stopped : List ℕ

pub data Error : Type 0 where
  database_error : Error
  not_found : Error
  not_running : Error
  already_started : Error
  invalid_network : Error

-- `server.NewNetwork`
unfoldable pub new_network : (ℕ → Bool) → Row → Option Network
new_network valid row =
    if valid row.cidr then some (record { cidr = row.cidr; mtu = row.mtu; sessions = [] }) else none

-- `RegisterNetwork`, which passes over the empty id
unfoldable pub register_network : ℕ → Network → Manager → Manager
register_network id n m = if id == 0 then m else record m { networks = store id n m.networks }

-- `RemoveNetwork`
unfoldable pub remove_network : ℕ → Manager → Manager
remove_network id m = record m { networks = delete id m.networks }

-- `Network.Stop` and `RemoveNetwork`, of a network that runs
unfoldable pub stop_running : ℕ → Network → Manager → Manager
stop_running id n m = remove_network id (record m { stopped = n.sessions ++ m.stopped })

unfoldable pub stop_if_running : ℕ → Option Network → Manager → Manager
stop_if_running id none m = m
stop_if_running id (some n) m = stop_running id n m

unfoldable pub started : ℕ → Option Network → Manager → Manager × Option Error
started id none m = (m, some invalid_network)
started id (some n) m = (register_network id n m, none)

-- `CreateNetwork`, with the id that `uuid` gives
unfoldable pub create_network : Bool → (ℕ → Bool) → ℕ → Row → Manager → Manager × Option Error
create_network inserts valid id row m =
    if inserts
    then started id (new_network valid row) (record m { rows = store id row m.rows })
    else (m, some database_error)

unfoldable pub stopped_or : ℕ → Option Network → Manager → Manager × Option Error
stopped_or id none m = (m, some not_running)
stopped_or id (some n) m = (stop_running id n m, none)

-- `StopNetwork`
unfoldable pub stop_network : ℕ → Manager → Manager × Option Error
stop_network id m = stopped_or id (find id m.networks) m

-- the end of `StartNetwork`, with what `GetNetworkById` gives
unfoldable pub start_row : (ℕ → Bool) → ℕ → Option Row → Manager → Manager × Option Error
start_row valid id none m = (m, some not_found)
start_row valid id (some row) m = started id (new_network valid row) m

unfoldable pub start_unless : (ℕ → Bool) → ℕ → Option Network → Manager → Manager × Option Error
start_unless valid id (some n) m = (m, some already_started)
start_unless valid id none m = start_row valid id (find id m.rows) m

-- `StartNetwork`
unfoldable pub start_network : (ℕ → Bool) → ℕ → Manager → Manager × Option Error
start_network valid id m = start_unless valid id (find id m.networks) m

unfoldable pub delete_row : Bool → ℕ → Manager → Manager × Option Error
delete_row deletes id m =
    if deletes then (record m { rows = delete id m.rows }, none) else (m, some database_error)

unfoldable pub delete_found : Bool → ℕ → Option Row → Manager → Manager × Option Error
delete_found deletes id none m = (m, some not_found)
delete_found deletes id (some row) m =
    delete_row deletes id (stop_if_running id (find id m.networks) m)

-- `DeleteNetwork`
unfoldable pub delete_network : Bool → ℕ → Manager → Manager × Option Error
delete_network deletes id m = delete_found deletes id (find id m.rows) m

-- a field that is given and not empty
unfoldable pub or_old : Option ℕ → ℕ → ℕ
or_old none old = old
or_old (some v) old = if v == 0 then old else v

unfoldable pub updated : Option ℕ → Option ℕ → Option ℕ → Row → Row
updated cidr name description row = record row {
  cidr = or_old cidr row.cidr;
  name = or_old name row.name;
  description = elim description [ none ↦ row.description | some d ↦ d ];
}

unfoldable pub update_row : Bool → ℕ → Row → Manager → Manager × Option Error
update_row updates id row m =
    if updates then (record m { rows = store id row m.rows }, none) else (m, some database_error)

unfoldable pub update_found :
    Bool → Option ℕ → Option ℕ → Option ℕ → ℕ → Option Row → Manager → Manager × Option Error
update_found updates cidr name description id none m = (m, some not_found)
update_found updates cidr name description id (some row) m =
    update_row updates id (updated cidr name description row)
      (stop_if_running id (find id m.networks) m)

-- `UpdateNetwork`, with the fields that are given
unfoldable pub update_network :
    Bool → Option ℕ → Option ℕ → Option ℕ → ℕ → Manager → Manager × Option Error
update_network updates cidr name description id m =
    update_found updates cidr name description id (find id m.rows) m
