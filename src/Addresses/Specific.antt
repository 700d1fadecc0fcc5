-- ===== src/Addresses/Specific.antt =====
-- common/addresses/ip_pool.go: `AssignSpecific`, and the texts of an address.
use go_vnet.Base.{
  ℕ, ◌≤◌, ◌≡◌, refl, true, false, Option, some, List, arith, ltb, ◌||◌, length, ◌+◌, ◌⊎◌, inl, inr,
  Bool-cases,
}
use go_vnet.Router.{Text, IpNet, to4}
use go_vnet.Addresses.{
  IpAllocator, ok, err, already_allocated, ip_to_uint32, uint32_to_ip, contains, mark, same_network,
  assign_specific,
}
use go_vnet.Addresses.Assignment.{first, last, is_taken, contains-mark}
use go_vnet.Addresses.Texts.{text_eq_iff}

module _ (parse_cidr : Text → Option IpNet) (parse_ip : Text → Option (List ℕ)) (a : IpAllocator)
    (t : Text) {parsed base target : List ℕ} {net : IpNet} (reads : parse_ip t ≡ some parsed)
    (network : parse_cidr a.network ≡ some net) (net_v4 : to4 net.ip ≡ some base)
    (ip_v4 : to4 parsed ≡ some target) (inside : same_network net.ones base target ≡ true)
    (lower : first a ≤ ip_to_uint32 target) (upper : ip_to_uint32 target ≤ last a) where
  -- Of a text that parses to an address of the network, between the first and the last of the pool:
  -- it is refused if the same text is in the table, and nothing changes; otherwise it is put there.
  pub assign_specific_cases :
      ((contains t a.allocated ≡ true)
        × (assign_specific parse_cidr parse_ip t a ≡ (a, err already_allocated)))
      ⊎ ((contains t a.allocated ≡ false)
          × (assign_specific parse_cidr parse_ip t a ≡ (mark t a, ok tt)))
  unfolding assign_specific
  assign_specific_cases =
      let in_range : (ltb (ip_to_uint32 target) (first a) || ltb (last a) (ip_to_uint32 target))
          ≡ false =
        ground arith in
      elim (Bool-cases (contains t a.allocated)) [
        | inl there ↦
            inl (there, rw (reads, assign_specific, network, net_v4, ip_v4, inside, there) refl)
        | inr new ↦
            inr
              (new, rw (reads, assign_specific, network, net_v4, ip_v4, inside, new, in_range) refl)
      ]

  -- One address can be assigned twice by `AssignSpecific`: if it is an address of the network in
  -- the range that is taken under its dotted text, and the text given is another way to write it
  -- that is not in the table, the assignment succeeds, and the table then has both texts.
  pub assign_specific_alias :
      is_taken (ip_to_uint32 target) a ≡ true
      → contains t a.allocated ≡ false
      → let r = assign_specific parse_cidr parse_ip t a in
        (r.1 ≡ ok tt)
        × (contains t r.0.allocated ≡ true)
        × (is_taken (ip_to_uint32 target) r.0 ≡ true)
        × (length r.0.allocated ≡ length a.allocated + 1)
  assign_specific_alias taken new =
      let granted : assign_specific parse_cidr parse_ip t a ≡ (mark t a, ok tt) =
        elim assign_specific_cases [ inl (there, _) ↦ cc | inr (_, e) ↦ e ] in
      rw granted (
        refl,
        ground (arith, contains-mark t t a, text_eq_iff t t),
        ground (arith, taken, contains-mark (uint32_to_ip (ip_to_uint32 target)) t a),
        rw new (omega arith),
      )
