-- ===== src/Addresses/Construction.antt =====
-- common/addresses/ip_pool.go: the range of addresses that `NewIPAllocator` gives a network.
use Prim.Native.Nat.{bit_and, bit_or, min}
use go_vnet.Base.{
  ℕ, ◌+◌, ◌-◌, ◌*◌, ◌%◌, ◌^◌, ◌≤◌, ◌<◌, ◌≡◌, refl, ap, sym, ◌∙◌, Bool, true, false, ◌&&◌, Option,
  some, List, [], ◌∷◌, arith, leb, ltb, ◌==◌, ==_iff, if◌then◌else◌,
}
use go_vnet.Router.{Text, IpNet, to4}
use go_vnet.Router.Cidr.{ip4_to_string}
use go_vnet.Addresses.{
  IpAllocator, ok, mask_byte, ip_to_uint32, calculate_ip_range_size, new_ip_allocator,
}
use go_vnet.Addresses.Texts.{holds_from, holds_from_lem}
use go_vnet.Addresses.Assignment.{first, last}
use go_vnet.Addresses.Lifecycle.{IsPool}

-- The number of host bits' values in byte `i`.
abbrev spread : ℕ → ℕ → ℕ
spread ones i = 2 ^ (8 - min 8 (ones - 8 * i))

-- A byte that its mask leaves alone, with the host bits set.
abbrev fills : ℕ → ℕ → Bool
fills b m =
    if bit_and b (256 - 2 ^ (8 - m)) == b
    then (bit_or b (255 - (256 - 2 ^ (8 - m))) + 1 == b + 2 ^ (8 - m))
      && leb (b + 2 ^ (8 - m)) 256
      && leb 1 (2 ^ (8 - m))
    else true

fill_table : holds_from 9 0 (λ m. holds_from 256 0 (λ b. fills b m)) ≡ true
unfolding holds_from
fill_table = refl

fill_byte :
    (ones i b : ℕ)
    → b < 256
    → bit_and b (mask_byte ones i) ≡ b
    → (bit_or b (255 - mask_byte ones i) + 1 ≡ b + spread ones i)
      × (b + spread ones i ≤ 256)
      × (1 ≤ spread ones i)
fill_byte ones i b h masked = ground (
  arith,
  masked,
  holds_from_lem 256 (λ b. fills b (min 8 (ones - 8 * i))) b
      (holds_from_lem 9 (λ m. holds_from 256 0 (λ b. fills b m)) (min 8 (ones - 8 * i)) fill_table
        (omega arith))
      h,
)

-- Up to 24 bits of mask the host bits of the bytes make up the size of the network.
abbrev sums : ℕ → Bool
sums ones =
    spread ones 0 * 2 ^ 24 + spread ones 1 * 2 ^ 16 + spread ones 2 * 2 ^ 8 + 0
    == 2 ^ (32 - ones) + 2 ^ 24 + 2 ^ 16

sum_table : holds_from 25 0 sums ≡ true
unfolding holds_from
sum_table = refl

-- An IPv4 network as `net.ParseCIDR` returns it: four bytes, host bits clear, a mask of at most 32.
pub record IsNetwork (ones a b c d : ℕ) : Type 0 where
  pub small : (a < 256) × (b < 256) × (c < 256) × (d < 256)
  pub masked_a : bit_and a (mask_byte ones 0) ≡ a
  pub masked_b : bit_and b (mask_byte ones 1) ≡ b
  pub masked_c : bit_and c (mask_byte ones 2) ≡ c
  pub masked_d : bit_and d (mask_byte ones 3) ≡ d
  pub width : ones ≤ 32

range_size :
    (start_ip end_ip : List ℕ)
    → ip_to_uint32 start_ip ≤ ip_to_uint32 end_ip
    → calculate_ip_range_size start_ip end_ip
      ≡ (ip_to_uint32 end_ip - ip_to_uint32 start_ip + 1) % 2 ^ 32
unfolding calculate_ip_range_size
range_size start_ip end_ip h =
    let in_order : ltb (ip_to_uint32 end_ip) (ip_to_uint32 start_ip) ≡ false = ground arith in
    rw in_order refl

spread_one : (ones i : ℕ) → 24 < ones → i ≤ 2 → spread ones i ≡ 1
spread_one ones i h hi =
    let none_left : 8 - min 8 (ones - 8 * i) ≡ 0 = omega arith in ap (λ k. 2 ^ k) none_left

last_table : holds_from 256 0 (λ d. if bit_and d 0 == d then d == 0 else true) ≡ true
unfolding holds_from
last_table = refl

last_byte_zero : (ones d : ℕ) → d < 256 → ones ≤ 24 → bit_and d (mask_byte ones 3) ≡ d → d ≡ 0
last_byte_zero ones d h short masked =
    let no_bits : ones - 8 * 3 ≡ 0 = omega arith in
    let cleared : bit_and d 0 ≡ d =
      ap (λ k. bit_and d (256 - 2 ^ (8 - min 8 k))) (sym no_bits) ∙ masked in
    ground (
      arith,
      cleared,
      holds_from_lem 256 (λ d. if bit_and d 0 == d then d == 0 else true) d last_table h,
    )

module _ (ones a b c d : ℕ) where
  abbrev start_of : List ℕ
  start_of = a ∷ b ∷ c ∷ 1 ∷ []

  abbrev end_of : List ℕ
  end_of =
      bit_or a (255 - mask_byte ones 0)
      ∷ bit_or b (255 - mask_byte ones 1)
      ∷ bit_or c (255 - mask_byte ones 2)
      ∷ 254
      ∷ []

  end_number :
      IsNetwork ones a b c d
      → (ip_to_uint32 end_of + 2 ^ 24 + 2 ^ 16 + 2 ^ 8
          ≡ (a + spread ones 0) * 2 ^ 24
            + (b + spread ones 1) * 2 ^ 16
            + (c + spread ones 2) * 2 ^ 8
            + 254)
        × (ip_to_uint32 start_of ≤ ip_to_uint32 end_of)
        × (ip_to_uint32 end_of + 1 < 2 ^ 32)
  end_number h = omega (
    arith,
    h,
    fill_byte ones 0 a h.small.0 h.masked_a,
    fill_byte ones 1 b h.small.1 h.masked_b,
    fill_byte ones 2 c h.small.2 h.masked_c,
  )

  module _ (parse_cidr : Text → Option IpNet) (cidr : Text) where
    -- The allocator that is built.
    Built : IpAllocator → Type 0
    Built x =
        (new_ip_allocator parse_cidr cidr ≡ ok x)
        × (x.start_ip ≡ start_of)
        × (x.end_ip ≡ end_of)
        × (x.total_ips ≡ calculate_ip_range_size start_of end_of)
        × (x.allocated ≡ [])

    built :
        parse_cidr cidr ≡ some (record { ip = a ∷ b ∷ c ∷ d ∷ []; ones = ones })
        → IsNetwork ones a b c d
        → (x : IpAllocator) × Built x
    unfolding new_ip_allocator to4 Built
    built parsed h = (
      record {
        network = cidr;
        start_ip = start_of;
        end_ip = end_of;
        allocated = [];
        subnet_mask =
            ip4_to_string
              (mask_byte ones 0 ∷ mask_byte ones 1 ∷ mask_byte ones 2 ∷ mask_byte ones 3 ∷ []);
        subnet_mask_bits = ones;
        total_ips = calculate_ip_range_size start_of end_of;
      },
      (
        rw (parsed, new_ip_allocator, h.masked_a, h.masked_b, h.masked_c) refl,
        refl,
        refl,
        refl,
        refl,
      ),
    )

    -- From an IPv4 network with a mask of at most 24 bits the allocator is built, as a valid empty
    -- pool. Its first address is the one behind the network's, its last is the second to last of
    -- the network's 2 ^ (32 - mask) addresses, and its size is that number less two.
    pub new_ip_allocator-IsPool :
        parse_cidr cidr ≡ some (record { ip = a ∷ b ∷ c ∷ d ∷ []; ones = ones })
        → IsNetwork ones a b c d
        → ones ≤ 24
        → let base = ip_to_uint32 (a ∷ b ∷ c ∷ d ∷ []) in
          (x : IpAllocator) × (new_ip_allocator parse_cidr cidr ≡ ok x)
          × IsPool x
          × (x.allocated ≡ [])
          × (first x ≡ base + 1)
          × (last x + 2 ≡ base + 2 ^ (32 - ones))
          × (x.total_ips + 2 ≡ 2 ^ (32 - ones))
    unfolding Built
    new_ip_allocator-IsPool parsed h short =
        let (x, b) = built parsed h in
        let (made, s0, s1, s2, empty) = b in
        let first_is = ap ip_to_uint32 s0 in
        let last_is = ap ip_to_uint32 s1 in
        let facts = end_number h in
        let total = s2 ∙ range_size start_of end_of facts.1 in
        let zero_d = last_byte_zero ones d h.small.3 short h.masked_d in
        let sum = (==_iff _ _).0 (holds_from_lem 25 sums ones sum_table (omega arith)) in
        (
          x,
          made,
          record {
            ordered = omega (arith, first_is, last_is, facts);
            fits = omega (arith, last_is, facts);
            sized = omega (arith, total, first_is, last_is, facts);
            distinct = rw empty tt;
            within = rw empty tt;
          },
          empty,
          omega (arith, first_is, zero_d),
          omega (arith, last_is, facts, zero_d, sum),
          omega (arith, total, facts, zero_d, sum),
        )

    -- From an IPv4 network with a mask of more than 24 bits, whose last byte is 2 or more, the pool
    -- is that of the surrounding 24-bit network: it starts at byte 1 and ends at byte 254, so that
    -- its first address lies before the network.
    pub new_ip_allocator-narrow :
        parse_cidr cidr ≡ some (record { ip = a ∷ b ∷ c ∷ d ∷ []; ones = ones })
        → IsNetwork ones a b c d
        → 24 < ones
        → 2 ≤ d
        → let base = ip_to_uint32 (a ∷ b ∷ c ∷ d ∷ []) in
          (x : IpAllocator) × (new_ip_allocator parse_cidr cidr ≡ ok x)
          × (first x + d ≡ base + 1)
          × (last x + d ≡ base + 254)
          × (first x < base)
    unfolding Built
    new_ip_allocator-narrow parsed h long high =
        let (x, b) = built parsed h in
        let (made, s0, s1, s2, empty) = b in
        let first_is = ap ip_to_uint32 s0 in
        let last_is = ap ip_to_uint32 s1 in
        let facts = end_number h in
        let ones_0 = spread_one ones 0 long (omega arith) in
        let ones_1 = spread_one ones 1 long (omega arith) in
        let ones_2 = spread_one ones 2 long (omega arith) in
        (
          x,
          made,
          omega (arith, first_is),
          omega (arith, last_is, facts, ones_0, ones_1, ones_2),
          omega (arith, first_is),
        )
