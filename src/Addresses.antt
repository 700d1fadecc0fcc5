-- ===== src/Addresses.antt =====
-- common/addresses/ip_pool.go: `IPAllocator`, its construction and its operations. Package net is a
-- parameter where it parses text. The map `allocated` holds only `true`, so it is the list of its
-- keys. A call that locks the mutex runs alone.
pub mod Texts
pub mod Construction
pub mod Assignment
pub mod Random
pub mod Capacity
pub mod Lifecycle
pub mod Storing
pub mod Specific
mod Tests
use Prim.Native.Nat.{bit_and, bit_or, min}
use go_vnet.Base.{
  ℕ, zero, suc, ◌+◌, ◌-◌, ◌*◌, ◌/◌, ◌%◌, ◌^◌, Bool, true, false, ◌||◌, Option, none, some, List, [],
  ◌∷◌, ◌++◌, length, get_or, set, take, ltb, leb, ◌==◌, if◌then◌else◌,
}
use go_vnet.Router.{Text, IpNet, to4}
use go_vnet.Router.Cidr.{ip4_to_string, int_to_string}

pub record IpAllocator : Type 0 where
  pub network : Text
  pub start_ip : List ℕ
  pub end_ip : List ℕ
  pub allocated : List Text
  pub subnet_mask : Text
  pub subnet_mask_bits : ℕ
  pub total_ips : ℕ

pub data Error : Type 0 where
  invalid_cidr only_ipv4 no_available failed_to_find out_of_range already_allocated : Error
  invalid_format not_within not_allocated invalid_data : Error

pub data Result {ℓ} (A : Type ℓ) : Type ℓ where
  ok : A → Result A
  err : Error → Result A

-- byte `i` of `net.CIDRMask(ones, …)`
abbrev pub mask_byte : ℕ → ℕ → ℕ
mask_byte ones i = 256 - 2 ^ (8 - min 8 (ones - 8 * i))

-- `net.IP.Mask`: byte by byte, from byte `i` on
unfoldable pub apply_mask : ℕ → ℕ → List ℕ → List ℕ
apply_mask ones i [] = []
apply_mask ones i (b ∷ ip) = bit_and b (mask_byte ones i) ∷ apply_mask ones (i + 1) ip

-- `for i := range endAvailable { endAvailable[i] |= ^ipnet.Mask[i] }`
unfoldable pub fill_host : ℕ → ℕ → List ℕ → List ℕ
fill_host ones i [] = []
fill_host ones i (b ∷ ip) = bit_or b (255 - mask_byte ones i) ∷ fill_host ones (i + 1) ip

-- `ipToUint32`, at the four bytes of `To4`; they do not overlap, so `|` is `+`
abbrev pub ip_to_uint32 : List ℕ → ℕ
ip_to_uint32 ip =
    get_or ip 0 0 * 2 ^ 24 + get_or ip 1 0 * 2 ^ 16 + get_or ip 2 0 * 2 ^ 8 + get_or ip 3 0

-- `uint32ToIP(val).String()`
unfoldable pub uint32_to_ip : ℕ → Text
unfolding ip4_to_string
uint32_to_ip val =
    ip4_to_string (val / 2 ^ 24 % 256 ∷ val / 2 ^ 16 % 256 ∷ val / 2 ^ 8 % 256 ∷ val % 256 ∷ [])

unfoldable pub calculate_ip_range_size : List ℕ → List ℕ → ℕ
calculate_ip_range_size start_ip end_ip =
    let start = ip_to_uint32 start_ip in
    let last = ip_to_uint32 end_ip in if ltb last start then 0 else (last - start + 1) % 2 ^ 32

module _ (parse_cidr : Text → Option IpNet) where
  unfoldable pub new_ip_allocator : Text → Result IpAllocator
  unfolding apply_mask fill_host calculate_ip_range_size ip4_to_string
  new_ip_allocator network_cidr = elim (parse_cidr network_cidr) [
    | none ↦ err invalid_cidr
    | some net ↦
        let mask =
          mask_byte net.ones 0
          ∷ mask_byte net.ones 1
          ∷ mask_byte net.ones 2
          ∷ mask_byte net.ones 3
          ∷ [] in
        elim (to4 net.ip) [
          | none ↦ err only_ipv4
          | some start_ip ↦
              let start_available = set start_ip 3 1 in
              let end_available =
                set (fill_host net.ones 0 (take 4 (apply_mask net.ones 0 net.ip))) 3 254 in
              ok (record {
                network = network_cidr;
                start_ip = start_available;
                end_ip = end_available;
                allocated = [];
                subnet_mask = ip4_to_string mask;
                subnet_mask_bits = net.ones;
                total_ips = calculate_ip_range_size start_available end_available;
              })
        ]
  ]

abbrev pub text_eq : Text → Text → Bool
text_eq [] [] = true
text_eq (a ∷ s) (b ∷ t) = if a == b then text_eq s t else false
text_eq _ _ = false

-- `alloc.allocated[ip]`
abbrev pub contains : Text → List Text → Bool
contains ip [] = false
contains ip (x ∷ xs) = if text_eq ip x then true else contains ip xs

-- `delete(alloc.allocated, ip)`
abbrev pub delete : Text → List Text → List Text
delete ip [] = []
delete ip (x ∷ xs) = if text_eq ip x then delete ip xs else x ∷ delete ip xs

-- `alloc.allocated[ip] = true`
abbrev pub mark : Text → IpAllocator → IpAllocator
mark ip a = record a {
  allocated = if contains ip a.allocated then a.allocated else ip ∷ a.allocated;
}

-- `fmt.Sprintf("%s/%d", ipStr, alloc.subnetMaskBits)`
unfoldable pub with_bits : Text → IpAllocator → Text
unfolding int_to_string
with_bits ip a = ip ++ b'/' ∷ int_to_string a.subnet_mask_bits

-- the loop of `AssignRandom`; `draws i` is what `Intn(end-start+1)` returns in round `i`
unfoldable pub assign_draw : ℕ → ℕ → (ℕ → ℕ) → IpAllocator → IpAllocator × Result Text
assign_draw zero i draws a = (a, err failed_to_find)
assign_draw (suc attempts) i draws a =
    let ip_str = uint32_to_ip ((ip_to_uint32 a.start_ip + draws i) % 2 ^ 32) in
    let again = assign_draw attempts (i + 1) draws a in
    if contains ip_str a.allocated then again else (mark ip_str a, ok (with_bits ip_str a))

abbrev pub max_attempts : ℕ
max_attempts = 1000

unfoldable pub assign_random : (ℕ → ℕ) → IpAllocator → IpAllocator × Result Text
unfolding assign_draw
assign_random draws a =
    if leb a.total_ips (length a.allocated % 2 ^ 32)
    then (a, err no_available)
    else assign_draw max_attempts 0 draws a

unfoldable pub assign_by_offset : ℕ → IpAllocator → IpAllocator × Result Text
assign_by_offset offset a =
    let target_ip = (ip_to_uint32 a.start_ip + offset) % 2 ^ 32 in
    let ip_str = uint32_to_ip target_ip in
    if ltb (ip_to_uint32 a.end_ip) target_ip
    then (a, err out_of_range)
    else if contains ip_str a.allocated
    then (a, err already_allocated)
    else (mark ip_str a, ok (with_bits ip_str a))

-- `strings.Split(ip, "/")[0]`
abbrev pub before_slash : Text → Text
before_slash [] = []
before_slash (c ∷ s) = if c == b'/' then [] else c ∷ before_slash s

-- `net.IPNet.Contains` on the 4-byte forms of the network and the address
unfoldable pub same_network : ℕ → List ℕ → List ℕ → Bool
unfolding apply_mask
same_network ones net ip = text_eq (apply_mask ones 0 net) (apply_mask ones 0 ip)

-- `parse_ip` is `net.ParseIP`; the network parsed when the allocator was built
unfoldable pub assign_specific :
    (Text → Option IpNet)
    → (Text → Option (List ℕ))
    → Text
    → IpAllocator
    → IpAllocator × Result (Unit {0})
unfolding same_network
assign_specific parse_cidr parse_ip ip a = elim (parse_ip ip) [
  | none ↦ (a, err invalid_format)
  | some parsed ↦ elim (parse_cidr a.network) [
    | none ↦ (a, err not_within)
    | some net ↦ elim (to4 net.ip) [
      | none ↦ (a, err not_within)
      | some base ↦ elim (to4 parsed) [
        | none ↦ (a, err not_within)
        | some target ↦
            if same_network net.ones base target
            then (if contains ip a.allocated
                then (a, err already_allocated)
                else if ltb (ip_to_uint32 target) (ip_to_uint32 a.start_ip)
                    || ltb (ip_to_uint32 a.end_ip) (ip_to_uint32 target)
                then (a, err out_of_range)
                else (mark ip a, ok tt))
            else (a, err not_within)
      ]
    ]
  ]
]

unfoldable pub release_ip : Text → IpAllocator → IpAllocator × Result (Unit {0})
release_ip ip a =
    if contains (before_slash ip) a.allocated
    then (record a { allocated = delete (before_slash ip) a.allocated }, ok tt)
    else (a, err not_allocated)

unfoldable pub is_allocated : Text → IpAllocator → Bool
is_allocated ip a = contains (before_slash ip) a.allocated

-- `serializableIPAllocator`, as `Bytes` fills it in before the JSON encoding
pub record Serializable : Type 0 where
  pub network : Text
  pub start_ip : Text
  pub end_ip : Text
  pub allocated : List Text
  pub subnet_mask : Text
  pub subnet_mask_bits : ℕ
  pub total_ips : ℕ

unfoldable pub to_serializable : IpAllocator → Serializable
unfolding ip4_to_string
to_serializable a = record {
  network = a.network;
  start_ip = ip4_to_string a.start_ip;
  end_ip = ip4_to_string a.end_ip;
  allocated = a.allocated;
  subnet_mask = a.subnet_mask;
  subnet_mask_bits = 0;
  total_ips = a.total_ips;
}

-- `for _, ip := range serializable.Allocated { allocator.allocated[ip] = true }`
unfoldable pub mark_all : List Text → IpAllocator → IpAllocator
mark_all [] a = a
mark_all (ip ∷ ips) a = mark_all ips (mark ip a)

abbrev pub restore : List Text → Result IpAllocator → Result IpAllocator
restore ips (err e) = err e
restore ips (ok a) = ok (mark_all ips a)

-- `Bytes`: `marshal` is the JSON encoding, none for an error, and `order` the order in which the
-- loop goes through the map
unfoldable pub bytes :
    (Serializable → Option (List ℕ)) → (List Text → List Text) → IpAllocator → Option (List ℕ)
unfolding to_serializable
bytes marshal order a = marshal (to_serializable (record a { allocated = order a.allocated }))

-- `LoadFromData`, behind the JSON decoding
unfoldable pub load_decoded : (Text → Option IpNet) → Option Serializable → Result IpAllocator
unfolding mark_all
load_decoded parse_cidr none = err invalid_data
load_decoded parse_cidr (some s) = restore s.allocated (new_ip_allocator parse_cidr s.network)

-- `LoadFromData`; `unmarshal` is the JSON decoding
unfoldable pub load_from_data :
    (Text → Option IpNet) → (List ℕ → Option Serializable) → List ℕ → Result IpAllocator
load_from_data parse_cidr unmarshal text = load_decoded parse_cidr (unmarshal text)

-- `available` in `GetStatus`: a uint32 difference
unfoldable pub available : IpAllocator → ℕ
available a = (a.total_ips + 2 ^ 32 - length a.allocated % 2 ^ 32) % 2 ^ 32
