-- ===== src/Addresses/Tests.antt =====
-- A pool on 10.0.0.0/24, and one on 10.0.0.128/25.
use go_vnet.Base.{
  suc, none, ◌-◌, ◌==◌, if◌then◌else◌, ℕ, ◌+◌, ◌≤◌, ◌<◌, ◌≡◌, ◌⊎◌, refl, true, Option, some, List,
  [], ◌∷◌, ◌++◌, arith, codes, length, replicate,
}
use go_vnet.Router.{Text, IpNet, to4}
use go_vnet.Addresses.{
  IpAllocator, ok, err, out_of_range, already_allocated, uint32_to_ip, contains, with_bits,
  new_ip_allocator, assign_by_offset, Serializable, to_serializable, bytes, load_from_data,
  available,
}
use go_vnet.Addresses.Assignment.{last, is_taken, at_offset, Takes, assign_by_offset_cases}
use go_vnet.Addresses.Lifecycle.{IsPool, Op, by_offset, random, release, run, run_accounts}
use go_vnet.Addresses.Storing.{load_from_data-bytes}
use go_vnet.Addresses.Construction.{IsNetwork}

abbrev office : IpNet
office = record { ip = 10 ∷ 0 ∷ 0 ∷ 0 ∷ []; ones = 24 }

abbrev half : IpNet
half = record { ip = 10 ∷ 0 ∷ 0 ∷ 128 ∷ []; ones = 25 }

abbrev parse_office : Text → Option IpNet
parse_office _ = some office

abbrev parse_half : Text → Option IpNet
parse_half _ = some half

-- `net.ParseIP` at an IPv4-mapped text: 16 bytes
abbrev parse_mapped : Text → Option (List ℕ)
parse_mapped _ = some (replicate 10 0 ++ 255 ∷ 255 ∷ 10 ∷ 0 ∷ 0 ∷ 5 ∷ [])

abbrev pool : IpAllocator
pool = record {
  network = codes "10.0.0.0/24";
  start_ip = 10 ∷ 0 ∷ 0 ∷ 1 ∷ [];
  end_ip = 10 ∷ 0 ∷ 0 ∷ 254 ∷ [];
  allocated = [];
  subnet_mask = codes "255.255.255.0";
  subnet_mask_bits = 24;
  total_ips = 254;
}

pool_built : new_ip_allocator parse_office (codes "10.0.0.0/24") ≡ ok pool
unfolding new_ip_allocator to4
pool_built = refl

-- 10.0.0.5 is assigned.
abbrev busy : IpAllocator
busy = record pool { allocated = codes "10.0.0.5" ∷ [] }

fifth_assigned : assign_by_offset 4 pool ≡ (busy, ok (codes "10.0.0.5/24"))
unfolding assign_by_offset uint32_to_ip with_bits
fifth_assigned = refl

pool-IsPool : IsPool pool
pool-IsPool = omega arith

office-IsNetwork : IsNetwork 24 10 0 0 0
office-IsNetwork = record {
  small = omega arith;
  masked_a = refl;
  masked_b = refl;
  masked_c = refl;
  masked_d = refl;
  width = omega arith;
}

half-IsNetwork : IsNetwork 25 10 0 0 128
half-IsNetwork = record {
  small = omega arith;
  masked_a = refl;
  masked_b = refl;
  masked_c = refl;
  masked_d = refl;
  width = omega arith;
}

assign_by_offset_cases_example :
    let x = at_offset 4 busy in
    let r = assign_by_offset 4 busy in
    ((last busy < x) × (r ≡ (busy, err out_of_range)))
    ⊎ ((x ≤ last busy) × (is_taken x busy ≡ true) × (r ≡ (busy, err already_allocated)))
    ⊎ ((x ≤ last busy) × (r.1 ≡ ok (with_bits (uint32_to_ip x) busy)) × Takes x busy r.0)
assign_by_offset_cases_example = assign_by_offset_cases 4 busy

abbrev history : List Op
history = by_offset 4 ∷ random (λ _. 9) ∷ release (codes "10.0.0.5/24") ∷ by_offset 300 ∷ []

run_accounts_example :
    IsPool (run history pool)
    × (available (run history pool) + length (run history pool).allocated
        ≡ (run history pool).total_ips)
run_accounts_example = run_accounts history pool pool-IsPool (omega arith)

-- A stored pool as text: each of its texts ends with a 0, and the two numbers are one more.
abbrev all_texts : List Text → List ℕ
all_texts [] = []
all_texts (t ∷ ts) = t ++ 0 ∷ all_texts ts

abbrev encode : Serializable → Option (List ℕ)
encode s = some (
    suc s.subnet_mask_bits
    ∷ suc s.total_ips
    ∷ all_texts (s.network ∷ s.start_ip ∷ s.end_ip ∷ s.subnet_mask ∷ s.allocated))

abbrev put_first : ℕ → List Text → List Text
put_first c [] = []
put_first c (t ∷ ts) = (c ∷ t) ∷ ts

abbrev texts_of : List ℕ → List Text
texts_of [] = []
texts_of (c ∷ text) = let rest = texts_of text in if c == 0 then [] ∷ rest else put_first c rest

abbrev read_texts : ℕ → ℕ → List Text → Option Serializable
read_texts bits total (net ∷ start ∷ end ∷ mask ∷ table) = some (record {
  network = net;
  start_ip = start;
  end_ip = end;
  allocated = table;
  subnet_mask = mask;
  subnet_mask_bits = bits;
  total_ips = total;
})
read_texts bits total texts = none

abbrev read_back : List ℕ → Option Serializable
read_back (bits ∷ total ∷ text) = read_texts (bits - 1) (total - 1) (texts_of text)
read_back text = none

abbrev text_of : Option (List ℕ) → List ℕ
text_of none = []
text_of (some text) = text

abbrev stored_text : List ℕ
stored_text = text_of (encode (to_serializable busy))

load_from_data-bytes_example :
    (b : IpAllocator) × (load_from_data parse_office read_back stored_text ≡ ok b)
    × (record b { allocated = [] } ≡ pool)
    × ((t : Text) → contains t b.allocated ≡ contains t busy.allocated)
    × ((offset : ℕ) → (assign_by_offset offset b).1 ≡ (assign_by_offset offset busy).1)
unfolding bytes to_serializable
load_from_data-bytes_example =
    load_from_data-bytes parse_office encode read_back (λ l. l) (codes "10.0.0.0/24") busy.allocated
      stored_text pool_built (λ t. refl) refl refl

mapped : Text
mapped = codes "::ffff:10.0.0.5"
