-- ===== src/Client.antt =====
-- vnet/client/sync_router.go: how the client keeps its routes and its peers in step with the
-- server, and when and how it connects again. What the server answers is an argument. A route or an
-- address is a number whose text is a parameter; the router is the map from its keys to its targets
-- (see Router), a target is a destination, or none for the client's own address.
pub mod Reconnecting
pub mod Routes
pub mod Peers
mod Tests
use go_vnet.Base.{
  ℕ, zero, suc, ◌+◌, ◌-◌, ◌%◌, ◌^◌, Bool, true, false, not, ◌&&◌, ◌||◌, Option, none, some, List,
  [], ◌∷◌, ◌++◌, ltb, leb, ◌==◌, if◌then◌else◌, find, store, delete,
}
use go_vnet.Base.Int.{ℤ, pos, ◌+ℤ◌, ◌*ℤ◌, ltb_ℤ}
use go_vnet.Base.Int64.{int64}

abbrev pub max_reconnect_interval : ℤ
max_reconnect_interval = pos 30

abbrev pub max_error_to_reconnect : ℕ
max_error_to_reconnect = 3

-- the loop of `fib`, for so many rounds, on int64
unfoldable pub fib_loop : ℕ → ℤ → ℤ → ℤ
fib_loop zero a b = b
fib_loop (suc n) a b = fib_loop n b (int64 (a +ℤ b))

unfoldable pub fib : ℕ → ℤ
fib n = if leb n 0 then pos 1 else fib_loop (n - 1) (pos 1) (pos 1)

-- the interval, in seconds, after so many failed tries
unfoldable pub next_interval : ℕ → ℤ
next_interval tries =
    if ltb_ℤ max_reconnect_interval (fib (tries + 1))
    then max_reconnect_interval
    else fib (tries + 1)

-- `syncRouterLoop` on the results of its ticks: whether it goes on to reconnect
unfoldable pub sync_loop : ℕ → List Bool → Bool
sync_loop err_count [] = false
sync_loop err_count (true ∷ ticks) = sync_loop 0 ticks
sync_loop err_count (false ∷ ticks) =
    let rest = sync_loop (err_count + 1) ticks in
    if leb max_error_to_reconnect (err_count + 1) then true else rest

unfoldable pub member : ℕ → List ℕ → Bool
member k [] = false
member k (x ∷ xs) = if x == k then true else member k xs

unfoldable pub to_set : List ℕ → List ℕ
to_set [] = []
to_set (k ∷ ks) = let rest = to_set ks in if member k ks then rest else k ∷ rest

unfoldable pub map_keys : {V : Type 0} → List (ℕ × V) → List ℕ
map_keys [] = []
map_keys ((k, v) ∷ entries) = k ∷ map_keys entries

-- `strings.HasPrefix`
unfoldable pub has_prefix : List ℕ → List ℕ → Bool
has_prefix text [] = true
has_prefix [] (c ∷ prefix) = false
has_prefix (d ∷ text) (c ∷ prefix) = if d == c then has_prefix text prefix else false

-- the routes, and the destinations that have been closed
abbrev pub Table : Type 0
Table = List (ℕ × Option ℕ) × List ℕ

abbrev pub target_of : Option (Option ℕ) → List ℕ
target_of (some (some dst)) = dst ∷ []
target_of (some none) = []
target_of none = []

unfoldable pub remove_route : ℕ → Table → Table
remove_route k (routes, closed) = (delete k routes, target_of (find k routes) ++ closed)

-- the loop over the client's routes
unfoldable pub remove_stale : List ℕ → List ℕ → Table → Table
remove_stale remote [] table = table
remove_stale remote (k ∷ current) table =
    remove_stale remote current (if member k remote then table else remove_route k table)

-- the target of a new route; `new_destination` is the destination that is made for it
unfoldable pub new_target : (ℕ → List ℕ) → List ℕ → (ℕ → ℕ) → ℕ → Option ℕ
new_target text own new_destination k =
    if has_prefix (text k) own then none else some (new_destination k)

-- `Register` of a text, by the key that the router makes of it, none when it does not parse
unfoldable pub register : Option ℕ → Option ℕ → List (ℕ × Option ℕ) → List (ℕ × Option ℕ)
register none target routes = routes
register (some key) target routes = store key target routes

-- the loop over the server's routes; `parsed` gives the keys of texts
unfoldable pub add_new :
    (ℕ → Option ℕ) → (ℕ → Option ℕ) → List ℕ → List ℕ → List (ℕ × Option ℕ) → List (ℕ × Option ℕ)
add_new parsed target current [] routes = routes
add_new parsed target current (k ∷ remote) routes =
    add_new parsed target current remote
      (if member k current then routes else register (parsed k) (target k) routes)

-- `updateRouter` with the routes of the server
unfoldable pub update_router :
    (ℕ → Option ℕ) → (ℕ → List ℕ) → List ℕ → (ℕ → ℕ) → List ℕ → List (ℕ × Option ℕ) → Table
update_router parsed text own new_destination ips routes =
    let current = map_keys routes in
    let remote = to_set ips in
    let removed = remove_stale remote current (routes, []) in
    (add_new parsed (new_target text own new_destination) current remote removed.0, removed.1)

-- a peer by its ID: the one that is known is kept when it is the client itself or the same
unfoldable pub keeps_peer : ℕ → ℕ → Option ℕ → Bool
keeps_peer host id none = false
keeps_peer host id (some known) = (known == host) || (known == id)

-- one entry of the mapping; `none` is a text that does not parse
unfoldable pub upsert_peer : ℕ → ℕ → ℕ × Option ℕ → List (ℕ × ℕ) → List (ℕ × ℕ)
upsert_peer own host (k, none) peers = peers
upsert_peer own host (k, some id) peers =
    if k == own
    then peers
    else if keeps_peer host id (find k peers)
    then peers
    else store k id peers

unfoldable pub upsert_peers : ℕ → ℕ → List (ℕ × Option ℕ) → List (ℕ × ℕ) → List (ℕ × ℕ)
upsert_peers own host [] peers = peers
upsert_peers own host (e ∷ mapping) peers =
    upsert_peers own host mapping (upsert_peer own host e peers)

-- the entries of the mapping stay
unfoldable pub remove_peers : List (ℕ × Option ℕ) → List (ℕ × ℕ) → List (ℕ × ℕ)
remove_peers mapping [] = []
remove_peers mapping ((k, id) ∷ peers) =
    let rest = remove_peers mapping peers in
    if member k (map_keys mapping) then (k, id) ∷ rest else rest

-- `syncP2PPeerMapping` with the mapping of the server
unfoldable pub sync_peer_mapping : ℕ → ℕ → List (ℕ × Option ℕ) → List (ℕ × ℕ) → List (ℕ × ℕ)
sync_peer_mapping own host mapping peers =
    remove_peers mapping (upsert_peers own host mapping peers)

-- The peers and their version at the end of `syncRouter`, when the ping has returned the latest
-- version. `fetched` is the mapping, or none when it cannot be had or read.
unfoldable pub sync_peers :
    Bool → ℕ → ℕ → ℕ → Option (List (ℕ × Option ℕ)) → List (ℕ × ℕ) × ℕ → List (ℕ × ℕ) × ℕ
sync_peers enabled own host latest fetched (peers, version) =
    if not (version == latest) && enabled
    then (
      elim fetched [ none ↦ peers | some mapping ↦ sync_peer_mapping own host mapping peers ],
      latest,
    )
    else (peers, version)

-- how long `reconnectLoop` sleeps, in nanoseconds, a `time.Duration`
unfoldable pub sleeping : ℕ → ℤ
sleeping tries = int64 (int64 (next_interval tries) *ℤ pos 1000000000)
