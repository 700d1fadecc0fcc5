-- ===== src/Addresses/Assignment.antt =====
-- common/addresses/ip_pool.go: `AssignByOffset` and `ReleaseIP`, branch by branch.
use go_vnet.Base.{
  ℕ, ◌+◌, ◌-◌, ◌%◌, ◌^◌, ◌≤◌, ◌<◌, ◌≡◌, ◌⊎◌, inl, inr, refl, ap, sym, ◌∙◌, Bool, true, false, arith,
  ltb, ◌==◌, if◌then◌else◌, Bool-cases,
}
use mathlib.Core.Path.{subst}
use native.Mathlib.Decide.{dec_lt}
use go_vnet.Router.{Text}
use go_vnet.Addresses.{
  IpAllocator, ok, err, out_of_range, already_allocated, not_allocated, ip_to_uint32, uint32_to_ip,
  contains, text_eq, mark, with_bits, assign_by_offset, release_ip, is_allocated, before_slash,
}
use go_vnet.Addresses.Texts.{
  uint32_to_ip-injective, before_slash-uint32_to_ip, text_eq_refl, text_eq_iff, contains-delete,
}

abbrev pub first : IpAllocator → ℕ
first a = ip_to_uint32 a.start_ip

abbrev pub last : IpAllocator → ℕ
last a = ip_to_uint32 a.end_ip

-- Address number `x` is taken.
abbrev pub is_taken : ℕ → IpAllocator → Bool
is_taken x a = contains (uint32_to_ip x) a.allocated

pub contains-mark :
    (s t : Text) (a : IpAllocator)
    → contains s (mark t a).allocated ≡ (if text_eq s t then true else contains s a.allocated)
contains-mark s t a = ground (arith, text_eq_iff s t)

-- The pool `b` is the pool `a` with address number `x`, which was free, taken in addition: of the
-- 32-bit addresses `x` alone changes, and so does nothing but the table.
abbrev pub Takes : ℕ → IpAllocator → IpAllocator → Type 0
Takes x a b =
    (is_taken x a ≡ false)
    × ((y : ℕ) → y < 2 ^ 32 → is_taken y b ≡ (if x == y then true else is_taken y a))
    × (record b { allocated = a.allocated } ≡ a)

pub mark-Takes :
    (x : ℕ) (a : IpAllocator)
    → x < 2 ^ 32
    → is_taken x a ≡ false
    → Takes x a (mark (uint32_to_ip x) a)
mark-Takes x a hx free = (
  free,
  λ y hy. ground (
    arith,
    contains-mark (uint32_to_ip y) (uint32_to_ip x) a,
    same y hy,
    text_eq_iff (uint32_to_ip y) (uint32_to_ip x),
  ),
  refl,
)
  where
    same : (y : ℕ) → y < 2 ^ 32 → uint32_to_ip y ≡ uint32_to_ip x → x ≡ y
    same y hy e = uint32_to_ip-injective x y hx hy (sym e)

-- The address that an offset names.
abbrev pub at_offset : ℕ → IpAllocator → ℕ
at_offset offset a = (first a + offset) % 2 ^ 32

pub assign_above :
    (offset : ℕ) (a : IpAllocator)
    → last a < at_offset offset a
    → assign_by_offset offset a ≡ (a, err out_of_range)
unfolding assign_by_offset
assign_above offset a h =
    let high : ltb (last a) (at_offset offset a) ≡ true = ground arith in rw high

pub assign_taken :
    (offset : ℕ) (a : IpAllocator)
    → at_offset offset a ≤ last a
    → is_taken (at_offset offset a) a ≡ true
    → assign_by_offset offset a ≡ (a, err already_allocated)
unfolding assign_by_offset
assign_taken offset a h taken =
    let low : ltb (last a) (at_offset offset a) ≡ false = ground arith in rw (low, taken)

pub assign_free :
    (offset : ℕ) (a : IpAllocator)
    → at_offset offset a ≤ last a
    → is_taken (at_offset offset a) a ≡ false
    → let ip = uint32_to_ip (at_offset offset a) in
      assign_by_offset offset a ≡ (mark ip a, ok (with_bits ip a))
unfolding assign_by_offset
assign_free offset a h free =
    let low : ltb (last a) (at_offset offset a) ≡ false = ground arith in rw (low, free)

-- `AssignByOffset`, on every branch. The address is `start + offset` in 32 bits. It is refused if
-- it lies above the last one, or if it is taken, and then nothing changes. Otherwise it is taken,
-- and the answer is its text with the mask.
pub assign_by_offset_cases :
    (offset : ℕ) (a : IpAllocator)
    → let x = at_offset offset a in
      let r = assign_by_offset offset a in
      ((last a < x) × (r ≡ (a, err out_of_range)))
      ⊎ ((x ≤ last a) × (is_taken x a ≡ true) × (r ≡ (a, err already_allocated)))
      ⊎ ((x ≤ last a) × (r.1 ≡ ok (with_bits (uint32_to_ip x) a)) × Takes x a r.0)
assign_by_offset_cases offset a = elim (dec_lt (last a) (at_offset offset a)) [
  | yes high ↦ inl (high, assign_above offset a high)
  | no low ↦ elim (Bool-cases (is_taken (at_offset offset a) a)) [
    | inl taken ↦ inr (inl (omega arith, taken, assign_taken offset a (omega arith) taken))
    | inr free ↦ inr (
        inr (
          omega arith,
          ap (λ r. r.1) (assign_free offset a (omega arith) free),
          rw (assign_free offset a (omega arith) free) (mark-Takes _ a (omega arith) free),
        ))
  ]
]

-- An offset so large that the sum passes 2 ^ 32 is not refused if the wrapped address is free: it
-- takes that address, which lies below the first one.
pub assign_by_offset_wraps :
    (offset : ℕ) (a : IpAllocator)
    → offset < 2 ^ 32
    → first a ≤ last a
    → last a < 2 ^ 32
    → 2 ^ 32 ≤ first a + offset
    → is_taken (first a + offset - 2 ^ 32) a ≡ false
    → (first a + offset - 2 ^ 32 < first a)
      × Takes (first a + offset - 2 ^ 32) a (assign_by_offset offset a).0
assign_by_offset_wraps offset a fits order end_fits over free =
    let wrapped : at_offset offset a ≡ first a + offset - 2 ^ 32 = omega arith in
    let free' : is_taken (at_offset offset a) a ≡ false = ap (λ x. is_taken x a) wrapped ∙ free in
    (
      omega arith,
      subst (λ x. Takes x a (assign_by_offset offset a).0) wrapped
          (rw (assign_free offset a (omega arith) free') (mark-Takes _ a (omega arith) free')),
    )

-- `ReleaseIP`, on both branches: of a text whose address part is taken it frees that address and
-- nothing else; any other text is refused, and nothing changes.
pub release_ip_cases :
    (t : Text) (a : IpAllocator)
    → ((is_allocated t a ≡ true)
        × ((release_ip t a).1 ≡ ok tt)
        × ((s : Text)
            → contains s (release_ip t a).0.allocated
              ≡ (if text_eq s (before_slash t) then false else contains s a.allocated))
        × (record (release_ip t a).0 { allocated = a.allocated } ≡ a))
      ⊎ ((is_allocated t a ≡ false) × (release_ip t a ≡ (a, err not_allocated)))
unfolding release_ip is_allocated
release_ip_cases t a = elim (Bool-cases (contains (before_slash t) a.allocated)) [
  | inl taken ↦ inl (
    taken,
    rw taken refl,
    (λ s. rw taken (contains-delete s (before_slash t) a.allocated)),
    rw taken refl,
  )
  | inr free ↦ inr (free, rw free refl)
]

text_after_assign :
    (offset : ℕ) (a : IpAllocator) {t : Text}
    → (assign_by_offset offset a).1 ≡ ok t
    → (is_taken (at_offset offset a) a ≡ false)
      × (before_slash t ≡ uint32_to_ip (at_offset offset a))
      × ((assign_by_offset offset a).0 ≡ mark (uint32_to_ip (at_offset offset a)) a)
unfolding with_bits
text_after_assign offset a {t} e = elim (dec_lt (last a) (at_offset offset a)) [
  | yes high ↦ absurd (ground (arith, assign_above offset a high))
  | no low ↦ elim (Bool-cases (is_taken (at_offset offset a) a)) [
    | inl taken ↦ absurd (ground (arith, assign_taken offset a (omega arith) taken))
    | inr free ↦
        let granted = assign_free offset a (omega arith) free in
        let shown : t ≡ with_bits (uint32_to_ip (at_offset offset a)) a =
          answer (sym e ∙ ap (λ r. r.1) granted) in
        (
          free,
          ap before_slash shown ∙ before_slash-uint32_to_ip (at_offset offset a) _,
          ap (λ r. r.0) granted,
        )
  ]
]
  where
    answer : {s u : Text} → ok s ≡ ok u → s ≡ u
    answer h = cc

-- What `AssignByOffset` hands out, `ReleaseIP` takes back: the text is allocated, its release
-- succeeds, and every address is then as it was before the assignment.
pub release_ip-assign_by_offset :
    (offset : ℕ) (a : IpAllocator) {t : Text}
    → (assign_by_offset offset a).1 ≡ ok t
    → let b = (assign_by_offset offset a).0 in
      (is_allocated t b ≡ true)
      × ((release_ip t b).1 ≡ ok tt)
      × ((s : Text) → contains s (release_ip t b).0.allocated ≡ contains s a.allocated)
unfolding is_allocated
release_ip-assign_by_offset offset a {t} e =
    let (free, cut, marked) = text_after_assign offset a e in
    let x = uint32_to_ip (at_offset offset a) in
    let there : is_allocated t (assign_by_offset offset a).0 ≡ true =
      rw (cut, marked) (contains-mark x x a ∙ (rw (text_eq_refl x) refl)) in
    elim (release_ip_cases t (assign_by_offset offset a).0) [
      | inl (_, done, after, _) ↦
          (there, done, λ s. after s ∙ (rw (cut, marked) (restored s x free)))
      | inr (gone, _) ↦ cc
    ]
  where
    restored :
        (s x : Text)
        → contains x a.allocated ≡ false
        → (if text_eq s x then false else contains s (mark x a).allocated) ≡ contains s a.allocated
    restored s x free = ground (arith, text_eq_iff s x, contains-mark s x a)
