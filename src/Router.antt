-- ===== src/Router.antt =====
-- common/router/router.go: the binary tries of the router, their loops over an address, and the
-- router's operations. A nil `*TrieNode` is `nil`; the two atomic pointers, the flag and the target
-- of a node are the fields of `node`. Each operation runs alone, so its compare-and-swap succeeds.
-- `none` in the result of a loop is a panic: an index past the end of the address.
pub mod Table
pub mod Lookup
pub mod Updates
pub mod Packets
pub mod Cidr
pub mod Listing
mod Tests
use go_vnet.Base.{
  ℕ, zero, suc, ◌+◌, ◌-◌, ◌*◌, ◌/◌, ◌%◌, ◌^◌, Bool, true, false, not, Option, none, some, List, [],
  ◌∷◌, length, get_elem?, take, drop, ltb, ◌==◌, if◌then◌else◌, ◌>>=◌, ◌&&◌, ◌||◌,
}

pub data TrieNode {ℓ} (V : Type ℓ) : Type ℓ where
  nil : TrieNode V
  node : TrieNode V → TrieNode V → Bool → Option V → TrieNode V

-- `(ip[i/8] >> (7 - i%8)) & 1`, as "the bit is not 0"
unfoldable pub bit_at : List ℕ → ℕ → Option Bool
bit_at ip i = do byte ← get_elem? ip (i / 8); some (not (byte / 2 ^ (7 - i % 8) % 2 == 0))

module _ {ℓ} {V : Type ℓ} where
  -- `&TrieNode{}`
  unfoldable pub fresh : TrieNode V
  fresh = node nil nil false none

  unfoldable pub is_nil : TrieNode V → Bool
  is_nil nil = true
  is_nil (node _ _ _ _) = false

  -- the branch that a bit takes
  unfoldable pub child : TrieNode V → Bool → TrieNode V
  child nil _ = nil
  child (node zero_branch _ _ _) false = zero_branch
  child (node _ one_branch _ _) true = one_branch

  unfoldable pub set_child : TrieNode V → Bool → TrieNode V → TrieNode V
  set_child nil _ _ = nil
  set_child (node _ o l g) false c = node c o l g
  set_child (node z _ l g) true c = node z c l g

  -- `if current.leaf.Load() { if target := current.target.Load(); target != nil { best = target }
  -- }`
  unfoldable pub visit : TrieNode V → Option V → Option V
  visit (node _ _ true (some v)) best = some v
  visit _ best = best

  -- the loop of `lookupIPv4` and `lookupIPv6`, `n` rounds from bit `i`, and the check behind it
  unfoldable pub lookup_loop : ℕ → ℕ → List ℕ → TrieNode V → Option V → Option (Option V)
  unfolding visit is_nil child
  lookup_loop zero i ip t best = some (visit t best)
  lookup_loop (suc n) i ip t best = do
    b ← bit_at ip i
    elim (is_nil (child t b)) [
      | true ↦ some (visit t (visit t best))
      | false ↦ lookup_loop n (i + 1) ip (child t b) (visit t best)
    ]

  -- `leaf.Store(true); target.Store(valuePtr)`
  unfoldable pub stamp : V → TrieNode V → TrieNode V
  stamp v nil = nil
  stamp v (node z o _ _) = node z o true (some v)

  -- `leaf.Store(false); target.Store(nil)`
  unfoldable pub unstamp : TrieNode V → TrieNode V
  unstamp nil = nil
  unstamp (node z o _ _) = node z o false none

  -- a child that is there, or a new one
  unfoldable pub ensure : TrieNode V → TrieNode V
  unfolding fresh
  ensure nil = fresh
  ensure (node z o l g) = node z o l g

  -- the loop of `insertIPv4` and `insertIPv6`
  unfoldable pub insert_loop : ℕ → ℕ → List ℕ → V → TrieNode V → Option (TrieNode V)
  unfolding stamp ensure child set_child
  insert_loop zero i ip v t = some (stamp v t)
  insert_loop (suc n) i ip v t = do
    b ← bit_at ip i
    next ← insert_loop n (i + 1) ip v (ensure (child t b))
    some (set_child t b next)

  -- the loop of `removeIPv4` and `removeIPv6`
  unfoldable pub remove_loop : ℕ → ℕ → List ℕ → TrieNode V → Option (TrieNode V)
  unfolding unstamp child set_child is_nil
  remove_loop zero i ip t = some (unstamp t)
  remove_loop (suc n) i ip t = do
    b ← bit_at ip i
    elim (is_nil (child t b)) [
      | true ↦ some t
      | false ↦ remove_loop n (i + 1) ip (child t b) >>= λ next. some (set_child t b next)
    ]

pub record Router {ℓ} (V : Type ℓ) : Type ℓ where
  pub v4 : TrieNode V
  pub v6 : TrieNode V

-- what `net.ParseCIDR` returns: the masked address, 4 or 16 bytes, and `Mask.Size()`
pub record IpNet : Type 0 where
  pub ip : List ℕ
  pub ones : ℕ

-- an address or prefix in text form, as its bytes
abbrev pub Text : Type 0
Text = List ℕ

abbrev pub is_zeros : List ℕ → Bool
is_zeros [] = true
is_zeros (b ∷ bs) = (b == 0) && is_zeros bs

abbrev pub is_mapped : List ℕ → Bool
is_mapped (a ∷ b ∷ _) = (a == 255) && (b == 255)
is_mapped _ = false

-- `net.IP.To4`: 4 bytes, or the last four of an IPv4-mapped address
unfoldable pub to4 : List ℕ → Option (List ℕ)
to4 ip =
    if length ip == 4
    then some ip
    else if (length ip == 16) && is_mapped (drop 10 (take 12 ip)) && is_zeros (take 10 ip)
    then some (drop 12 ip)
    else none

-- `net.IP.To16`
unfoldable pub to16 : List ℕ → Option (List ℕ)
to16 ip =
    if length ip == 16
    then some ip
    else if length ip == 4
    then some (0 ∷ 0 ∷ 0 ∷ 0 ∷ 0 ∷ 0 ∷ 0 ∷ 0 ∷ 0 ∷ 0 ∷ 255 ∷ 255 ∷ ip)
    else none

module _ {ℓ} {V : Type ℓ} where
  unfoldable pub new_router : Router V
  unfolding fresh
  new_router = record { v4 = fresh; v6 = fresh }

  unfoldable pub lookup_ipv4 : Router V → List ℕ → Option (Option V)
  lookup_ipv4 r ip = if length ip == 4 then lookup_loop 32 0 ip r.v4 none else some none

  unfoldable pub insert_ipv4 : Router V → List ℕ → ℕ → V → Option (Router V)
  insert_ipv4 r ip ones v =
      if length ip == 4
      then (insert_loop ones 0 ip v r.v4 >>= λ t. some (record r { v4 = t }))
      else some r

  unfoldable pub remove_ipv4 : Router V → List ℕ → ℕ → Option (Router V)
  remove_ipv4 r ip ones =
      if length ip == 4
      then (remove_loop ones 0 ip r.v4 >>= λ t. some (record r { v4 = t }))
      else some r

  unfoldable pub lookup_ipv6 : Router V → List ℕ → Option (Option V)
  lookup_ipv6 r ip = if length ip == 16 then lookup_loop 128 0 ip r.v6 none else some none

  unfoldable pub insert_ipv6 : Router V → List ℕ → ℕ → V → Option (Router V)
  insert_ipv6 r ip ones v =
      if length ip == 16
      then (insert_loop ones 0 ip v r.v6 >>= λ t. some (record r { v6 = t }))
      else some r

  unfoldable pub remove_ipv6 : Router V → List ℕ → ℕ → Option (Router V)
  remove_ipv6 r ip ones =
      if length ip == 16
      then (remove_loop ones 0 ip r.v6 >>= λ t. some (record r { v6 = t }))
      else some r

  -- `Route`: the destination of an IP packet
  unfoldable pub route : Router V → List ℕ → Option (Option V)
  route r [] = some none
  route r (first ∷ rest) =
      let buf = first ∷ rest in
      let version = first / 2 ^ 4 % 16 in
      let ihl = first % 16 in
      if ltb (length buf) 20
      then some none
      else if version == 4
      then (if ltb ihl 5 || ltb (length buf) (ihl * 4 % 256)
          then some none
          else lookup_ipv4 r (take 4 (drop 16 buf)))
      else if version == 6
      then (if ltb (length buf) 40 then some none else lookup_ipv6 r (take 16 (drop 24 buf)))
      else some none

  -- `Register`, `UnRegister` and `RouteString`; `parse_cidr` is `net.ParseCIDR`, `parse_ip` is
  -- `net.ParseIP`
  module _ (parse_cidr : Text → Option IpNet) where
    unfoldable pub register : Router V → Text → V → Option (Router V)
    register r addr v = elim (parse_cidr addr) [
      | none ↦ some r
      | some net ↦ elim (to4 net.ip) [
        | some ip4 ↦ insert_ipv4 r ip4 net.ones v
        | none ↦ elim (to16 net.ip) [ some ip6 ↦ insert_ipv6 r ip6 net.ones v | none ↦ some r ]
      ]
    ]

    unfoldable pub unregister : Router V → Text → Option (Router V)
    unregister r addr = elim (parse_cidr addr) [
      | none ↦ some r
      | some net ↦ elim (to4 net.ip) [
        | some ip4 ↦ remove_ipv4 r ip4 net.ones
        | none ↦ elim (to16 net.ip) [ some ip6 ↦ remove_ipv6 r ip6 net.ones | none ↦ some r ]
      ]
    ]

  unfoldable pub route_string : (Text → Option (List ℕ)) → Router V → Text → Option (Option V)
  route_string parse_ip r addr = elim (parse_ip addr) [
    | none ↦ some none
    | some ip ↦ elim (to4 ip) [
      | some ip4 ↦ lookup_ipv4 r ip4
      | none ↦ elim (to16 ip) [ some ip6 ↦ lookup_ipv6 r ip6 | none ↦ some none ]
    ]
  ]
