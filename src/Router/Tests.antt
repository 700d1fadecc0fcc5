-- ===== src/Router/Tests.antt =====
-- The router on a table of two routes, 10.0.0.0/8 to 1 and 10.0.0.2/32 to 2.
use go_vnet.Base.{
  ℕ, codes, ◌≡◌, refl, Bool, true, false, Option, none, some, List, [], ◌∷◌, ◌++◌, arith, ◌==◌,
  length, replicate, if◌then◌else◌,
}
use go_vnet.Router.{
  Router, IpNet, Text, insert_ipv4, insert_ipv6, lookup_ipv4, lookup_ipv6, new_router, visit,
  lookup_loop, insert_loop, register, unregister, to4, bit_at, is_nil,
}
use go_vnet.Router.Table.{path, entry, bits_eq}
use go_vnet.Router.Lookup.{IsLongestMatch, lookup_ipv4-IsLongestMatch}
use go_vnet.Router.Updates.{inet, register-entry, unregister-entry}
use go_vnet.Router.Cidr.{prefix_to_cidr}
use go_vnet.Router.Packets.{route_batch, count_routed, Routed, route_batch-Routed}
use go_vnet.Router.Listing.{collect_routes, collect_md5, keys, range, md5_input}

abbrev wide : IpNet
wide = record { ip = 10 ∷ 0 ∷ 0 ∷ 0 ∷ []; ones = 8 }

abbrev host : IpNet
host = record { ip = 10 ∷ 0 ∷ 0 ∷ 2 ∷ []; ones = 32 }

-- `net.ParseCIDR` at two texts, "w" and "h"
abbrev parse_cidr : Text → Option IpNet
parse_cidr (b ∷ []) = if b == b'w' then some wide else some host
parse_cidr _ = none

abbrev parse_ip : Text → Option (List ℕ)
parse_ip (b ∷ []) = some (10 ∷ 0 ∷ 0 ∷ b ∷ [])
parse_ip _ = none

get_router : Option (Router ℕ) → Router ℕ
unfolding new_router
get_router (some r) = r
get_router none = new_router

-- registered in turn
with_wide : Router ℕ
unfolding get_router register insert_ipv4 insert_loop new_router to4 bit_at
with_wide = get_router (register parse_cidr new_router (b'w' ∷ []) 1)

with_both : Router ℕ
unfolding get_router register insert_ipv4 insert_loop with_wide to4 bit_at
with_both = get_router (register parse_cidr with_wide (b'h' ∷ []) 2)

listed : keys with_both ≡ codes "10.0.0.0/8" ∷ codes "10.0.0.2/32" ∷ []
unfolding keys range with_both collect_routes prefix_to_cidr visit
listed = refl

-- a host inside the wide route, and one outside
found_wide : lookup_ipv4 with_both (10 ∷ 0 ∷ 0 ∷ 7 ∷ []) ≡ some (some 1)
unfolding lookup_ipv4 with_both lookup_loop bit_at
found_wide = refl

missed : lookup_ipv4 with_both (11 ∷ 0 ∷ 0 ∷ 2 ∷ []) ≡ some none
unfolding lookup_ipv4 with_both lookup_loop bit_at
missed = refl

-- `Register` of a mask longer than its 4-byte address runs past the address: a panic.
mapped_prefix_panics : insert_ipv4 {V = ℕ} new_router (10 ∷ 0 ∷ 0 ∷ 2 ∷ []) 120 1 ≡ none
unfolding insert_ipv4 insert_loop bit_at new_router
mapped_prefix_panics = refl

-- Two tables with one digest: 0.0.0.0/1 with 0.0.0.0/2, and 0.0.0.0/3.
abbrev zeros : List ℕ
zeros = 0 ∷ 0 ∷ 0 ∷ 0 ∷ []

same_digest :
    md5_input (get_router (insert_ipv4 (get_router (insert_ipv4 new_router zeros 1 1)) zeros 2 1))
    ≡ md5_input (get_router (insert_ipv4 new_router zeros 3 1))
unfolding md5_input get_router insert_ipv4 insert_loop bit_at new_router collect_md5 visit
same_digest = refl

-- An IPv6 route of 128 bits is found by a lookup and is not listed.
abbrev loopback : List ℕ
loopback = replicate 15 0 ++ 1 ∷ []

with_loopback : Router ℕ
unfolding get_router insert_ipv6 new_router
with_loopback = get_router (insert_ipv6 new_router loopback 128 9)

host_unlisted : (lookup_ipv6 with_loopback loopback ≡ some (some 9)) × (keys with_loopback ≡ [])
unfolding lookup_ipv6 lookup_loop with_loopback insert_loop bit_at keys range collect_routes visit
host_unlisted = (refl, refl)

lookup_ipv4-IsLongestMatch_example :
    (bs : List Bool) × (o : Option ℕ) × (path 32 0 (10 ∷ 0 ∷ 0 ∷ 7 ∷ []) ≡ some bs)
    × (length bs ≡ 32)
    × (lookup_ipv4 with_both (10 ∷ 0 ∷ 0 ∷ 7 ∷ []) ≡ some o)
    × IsLongestMatch (entry with_both.v4) bs o
lookup_ipv4-IsLongestMatch_example = lookup_ipv4-IsLongestMatch with_both (10 ∷ 0 ∷ 0 ∷ 7 ∷ []) refl

register-entry_example :
    (p : List Bool) × (r' : Router ℕ) × (path 32 0 host.ip ≡ some p)
    × (register parse_cidr with_wide (b'h' ∷ []) 2 ≡ some r')
    × ((q : List Bool) → entry r'.v4 q ≡ (if bits_eq p q then some 2 else entry with_wide.v4 q))
    × (r'.v6 ≡ with_wide.v6)
unfolding with_wide to4 is_nil
register-entry_example =
    register-entry parse_cidr with_wide (b'h' ∷ []) 2 host inet host.ip refl
      (refl, refl, omega arith) refl

unregister-entry_example :
    (p : List Bool) × (r' : Router ℕ) × (path 32 0 host.ip ≡ some p)
    × (unregister parse_cidr with_both (b'h' ∷ []) ≡ some r')
    × ((q : List Bool) → entry r'.v4 q ≡ (if bits_eq p q then none else entry with_both.v4 q))
    × (r'.v6 ≡ with_both.v6)
unfolding to4
unregister-entry_example =
    unregister-entry parse_cidr with_both (b'h' ∷ []) host inet host.ip refl
      (refl, refl, omega arith)

abbrev host_bits : List Bool
host_bits =
    false
    ∷ false
    ∷ false
    ∷ false
    ∷ true
    ∷ false
    ∷ true
    ∷ false
    ∷ (replicate 22 false ++ true ∷ false ∷ [])

abbrev packet : List ℕ
packet = 0x45 ∷ (replicate 15 0 ++ 10 ∷ 0 ∷ 0 ∷ 2 ∷ [])

route_batch-Routed_example :
    (ts : List (Option ℕ)) × (route_batch with_both (packet ∷ [] ∷ []) ≡ some (ts, count_routed ts))
    × Routed with_both (packet ∷ [] ∷ []) ts
route_batch-Routed_example = route_batch-Routed with_both (packet ∷ [] ∷ [])

-- one host route each, to different targets
one_route : Router ℕ
unfolding get_router insert_ipv4 new_router
one_route = get_router (insert_ipv4 new_router host.ip 32 1)

other_route : Router ℕ
unfolding get_router insert_ipv4 new_router
other_route = get_router (insert_ipv4 new_router host.ip 32 5)
