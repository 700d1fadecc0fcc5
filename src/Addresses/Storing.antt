-- ===== src/Addresses/Storing.antt =====
-- common/addresses/ip_pool.go: a pool that is stored by `Bytes` and loaded by `LoadFromData`.
use go_vnet.Base.{
  ltb, some, Bool-cases, ℕ, ◌+◌, ◌%◌, ◌^◌, ◌≡◌, inl, inr, refl, ap, sym, ◌∙◌, Bool, true, false,
  Option, List, [], ◌∷◌, arith, if◌then◌else◌, Bool-cases,
}
use go_vnet.Router.{Text, IpNet}
use go_vnet.Addresses.{
  IpAllocator, Result, ok, uint32_to_ip, contains, mark, assign_by_offset, new_ip_allocator,
  Serializable, to_serializable, mark_all, bytes, load_decoded, load_from_data, restore, err,
  out_of_range, already_allocated, ip_to_uint32, with_bits,
}
use go_vnet.Addresses.Assignment.{contains-mark}

new_ip_allocator-fields :
    (parse_cidr : Text → Option IpNet) (cidr : Text) {a : IpAllocator}
    → new_ip_allocator parse_cidr cidr ≡ ok a
    → (a.network ≡ cidr) × (a.allocated ≡ [])
unfolding new_ip_allocator
new_ip_allocator-fields parse_cidr cidr e = ground (arith, e)

contains-mark_all :
    (s : Text) (l : List Text) (a : IpAllocator)
    → contains s (mark_all l a).allocated ≡ (if contains s l then true else contains s a.allocated)
unfolding mark_all
contains-mark_all s [] a = refl
contains-mark_all s (t ∷ l) a =
    ground (arith, contains-mark_all s l (mark t a), contains-mark s t a)

mark_all_fields :
    (l x : List Text) (a : IpAllocator)
    → record (mark_all l a) { allocated = x } ≡ record a { allocated = x }
unfolding mark_all
mark_all_fields [] x a = refl
mark_all_fields (t ∷ l) x a = mark_all_fields l x (mark t a)

-- the address that an offset names, and the answer for it; the table does not matter for them
abbrev text_at : ℕ → IpAllocator → Text
text_at offset c = uint32_to_ip ((ip_to_uint32 c.start_ip + offset) % 2 ^ 32)

abbrev answer : ℕ → IpAllocator → Bool → Result Text
answer offset c taken =
    if ltb (ip_to_uint32 c.end_ip) ((ip_to_uint32 c.start_ip + offset) % 2 ^ 32)
    then err out_of_range
    else if taken
    then err already_allocated
    else ok (with_bits (text_at offset c) c)

abbrev emptied : IpAllocator → IpAllocator
emptied a = record a { allocated = [] }

assign_by_offset-answer :
    (offset : ℕ) (a : IpAllocator)
    → (assign_by_offset offset a).1
      ≡ answer offset (emptied a) (contains (text_at offset (emptied a)) a.allocated)
unfolding assign_by_offset with_bits
assign_by_offset-answer offset a =
    elim (Bool-cases (ltb (ip_to_uint32 a.end_ip) ((ip_to_uint32 a.start_ip + offset) % 2 ^ 32))) [
      | inl above ↦ rw above refl
      | inr within ↦ rw within (elim (Bool-cases (contains (text_at offset a) a.allocated)) [
        | inl taken ↦ rw taken refl
        | inr free ↦ rw free refl
      ])
    ]

same_answer :
    (offset : ℕ) (a b : IpAllocator)
    → emptied b ≡ emptied a
    → ((t : Text) → contains t b.allocated ≡ contains t a.allocated)
    → (assign_by_offset offset b).1 ≡ (assign_by_offset offset a).1
same_answer offset a b fields table =
    assign_by_offset-answer offset b
    ∙ ap (answer offset (emptied b)) (table (text_at offset (emptied b)))
    ∙ ap (λ c. answer offset c (contains (text_at offset c) a.allocated)) fields
    ∙ sym (assign_by_offset-answer offset a)

loaded :
    (parse_cidr : Text → Option IpNet) (cidr : Text) {new : IpAllocator} (table : List Text)
    → new_ip_allocator parse_cidr cidr ≡ ok new
    → load_decoded parse_cidr (some (to_serializable (record new { allocated = table })))
      ≡ ok (mark_all table new)
unfolding load_decoded to_serializable
loaded parse_cidr cidr {new} table built =
    ap (λ n. restore table (new_ip_allocator parse_cidr n))
      (new_ip_allocator-fields parse_cidr cidr built).0
    ∙ ap (restore table) built

contains_loaded :
    (parse_cidr : Text → Option IpNet) (cidr : Text) {new : IpAllocator} (table : List Text)
    (t : Text)
    → new_ip_allocator parse_cidr cidr ≡ ok new
    → contains t (mark_all table new).allocated ≡ contains t table
contains_loaded parse_cidr cidr {new} table t built =
    contains-mark_all t table new
    ∙ rw (new_ip_allocator-fields parse_cidr cidr built).1 (no_more (contains t table))
  where
    no_more : (b : Bool) → (if b then true else false) ≡ b
    no_more true = refl
    no_more false = refl

-- A pool was built from its network text, and anything was assigned and released since. When JSON
-- encodes it and decodes the data again to what it has encoded, in whatever order the loop goes
-- through the table, then loading the data succeeds and gives back every field and the same set of
-- addresses, and the loaded pool answers each `AssignByOffset` as the stored one does.
pub load_from_data-bytes :
    (parse_cidr : Text → Option IpNet) (marshal : Serializable → Option (List ℕ))
    (unmarshal : List ℕ → Option Serializable) (order : List Text → List Text) (cidr : Text)
    {new : IpAllocator} (table : List Text) (text : List ℕ)
    → new_ip_allocator parse_cidr cidr ≡ ok new
    → ((t : Text) → contains t (order table) ≡ contains t table)
    → bytes marshal order (record new { allocated = table }) ≡ some text
    → unmarshal text ≡ some (to_serializable (record new { allocated = order table }))
    → (b : IpAllocator) × (load_from_data parse_cidr unmarshal text ≡ ok b)
      × (record b { allocated = [] } ≡ new)
      × ((t : Text) → contains t b.allocated ≡ contains t table)
      × ((offset : ℕ)
          → (assign_by_offset offset b).1
            ≡ (assign_by_offset offset (record new { allocated = table })).1)
unfolding load_from_data bytes to_serializable
load_from_data-bytes parse_cidr marshal unmarshal order cidr {new} table text built reorders stored
      decodes =
    let (named, empty) = new_ip_allocator-fields parse_cidr cidr built in
    let fields : emptied (mark_all (order table) new) ≡ emptied new =
      mark_all_fields (order table) [] new in
    let same : (t : Text) → contains t (mark_all (order table) new).allocated ≡ contains t table =
      λ t. contains_loaded parse_cidr cidr (order table) t built ∙ reorders t in
    (
      mark_all (order table) new,
      ap (load_decoded parse_cidr) decodes ∙ loaded parse_cidr cidr (order table) built,
      fields ∙ ap (λ l. record new { allocated = l }) (sym empty),
      same,
      λ offset.
          same_answer offset (record new { allocated = table }) (mark_all (order table) new) fields
            same,
    )
