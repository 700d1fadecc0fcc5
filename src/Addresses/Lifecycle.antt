-- ===== src/Addresses/Lifecycle.antt =====
-- common/addresses/ip_pool.go: whole histories of a pool, and its stored form.
use go_vnet.Base.{
  ℕ, ◌+◌, ◌-◌, ◌%◌, ◌^◌, ◌≤◌, ◌<◌, ◌≡◌, inl, inr, refl, sym, false, List, [], ◌∷◌, arith, leb,
  Bool-cases, length,
}
use native.Mathlib.Decide.{dec_lt}
use mathlib.Core.Path.{subst}
use go_vnet.Router.{Text}
use go_vnet.Addresses.{
  IpAllocator, Result, uint32_to_ip, contains, delete, mark, assign_random, assign_by_offset,
  release_ip, before_slash, available, max_attempts,
}
use go_vnet.Addresses.Assignment.{
  first, last, is_taken, at_offset, assign_above, assign_taken, assign_free,
}
use go_vnet.Addresses.Random.{drawn, assign_draw_cases}
use go_vnet.Addresses.Capacity.{Distinct, Within, delete-Distinct, delete-Within, pigeonhole}

-- The size of the pool's range is what it was built with, and its table holds texts of addresses of
-- that range, none twice.
pub record IsPool (a : IpAllocator) : Type 0 where
  pub ordered : first a ≤ last a
  pub fits : last a + 1 < 2 ^ 32
  pub sized : a.total_ips ≡ last a + 1 - first a
  pub distinct : Distinct a.allocated
  pub within : Within (first a) (last a + 1 - first a) a.allocated

pub data Op : Type 0 where
  by_offset : ℕ → Op
  random : (ℕ → ℕ) → Op
  release : Text → Op

pub apply : Op → IpAllocator → IpAllocator
apply (by_offset n) a = (assign_by_offset n a).0
apply (random draws) a = (assign_random draws a).0
apply (release t) a = (release_ip t a).0

pub run : List Op → IpAllocator → IpAllocator
run [] a = a
run (op ∷ ops) a = run ops (apply op a)

-- An offset whose sum with the first address does not wrap, and draws as `Intn(end-start+1)` makes
-- them.
abbrev pub IsAdmissible : ℕ → ℕ → Op → Type 0
IsAdmissible lo hi (by_offset n) = lo + n < 2 ^ 32
IsAdmissible lo hi (random draws) = (i : ℕ) → draws i ≤ hi - lo
IsAdmissible lo hi (release t) = Unit

abbrev pub AllAdmissible : ℕ → ℕ → List Op → Type 0
AllAdmissible lo hi [] = Unit
AllAdmissible lo hi (op ∷ ops) = IsAdmissible lo hi op × AllAdmissible lo hi ops

-- The pool after an operation: still one, and over the same range.
abbrev Keeps : IpAllocator → IpAllocator → Type 0
Keeps a b = IsPool b × (first b ≡ first a) × (last b ≡ last a)

mark-Keeps :
    (x : ℕ) (a : IpAllocator)
    → IsPool a
    → first a ≤ x
    → x ≤ last a
    → is_taken x a ≡ false
    → Keeps a (mark (uint32_to_ip x) a)
mark-Keeps x a h lo hi free = (
  record {
    ordered = h.ordered;
    fits = h.fits;
    sized = h.sized;
    distinct = rw free (free, h.distinct);
    within = rw free ((x, lo, omega (arith, h), refl), h.within);
  },
  refl,
  refl,
)

assign_by_offset-Keeps :
    (n : ℕ) (a : IpAllocator) → IsPool a → first a + n < 2 ^ 32 → Keeps a (assign_by_offset n a).0
assign_by_offset-Keeps n a h small = elim (dec_lt (last a) (at_offset n a)) [
  | yes high ↦ after (assign_above n a high) (h, refl, refl)
  | no low ↦ elim (Bool-cases (is_taken (at_offset n a) a)) [
    | inl taken ↦ after (assign_taken n a (omega arith) taken) (h, refl, refl)
    | inr free ↦
        after (assign_free n a (omega arith) free)
          (mark-Keeps (at_offset n a) a h (omega arith) (omega arith) free)
  ]
]
  where
    after :
        {r : IpAllocator × Result Text}
        → assign_by_offset n a ≡ r
        → Keeps a r.0
        → Keeps a (assign_by_offset n a).0
    after e k = subst (λ r. Keeps a r.0) (sym e) k

assign_random-Keeps :
    (draws : ℕ → ℕ) (a : IpAllocator)
    → IsPool a
    → ((i : ℕ) → draws i ≤ last a - first a)
    → Keeps a (assign_random draws a).0
unfolding assign_random
assign_random-Keeps draws a h small =
    elim (Bool-cases (leb a.total_ips (length a.allocated % 2 ^ 32))) [
      | inl full ↦ rw full (h, refl, refl)
      | inr room ↦ elim (assign_draw_cases max_attempts 0 draws a) [
        | inl (e, all) ↦ rw (room, e) (h, refl, refl)
        | inr (j, lo, hi, e, free) ↦
            rw (room, e)
              (mark-Keeps (drawn draws j a) a h (omega (arith, small j, h))
                (omega (arith, small j, h)) free)
      ]
    ]

release_ip-Keeps : (t : Text) (a : IpAllocator) → IsPool a → Keeps a (release_ip t a).0
unfolding release_ip
release_ip-Keeps t a h = elim (Bool-cases (contains (before_slash t) a.allocated)) [
  | inr free ↦ rw free (h, refl, refl)
  | inl taken ↦ rw taken (freed, refl, refl)
]
  where
    freed : IsPool (record a { allocated = delete (before_slash t) a.allocated })
    freed = record {
      ordered = h.ordered;
      fits = h.fits;
      sized = h.sized;
      distinct = delete-Distinct (before_slash t) a.allocated h.distinct;
      within = delete-Within (before_slash t) (first a) (last a + 1 - first a) a.allocated h.within;
    }

apply-Keeps :
    (op : Op) (a : IpAllocator)
    → IsPool a
    → IsAdmissible (first a) (last a) op
    → Keeps a (apply op a)
unfolding apply
apply-Keeps (by_offset n) a h small = assign_by_offset-Keeps n a h small
apply-Keeps (random draws) a h small = assign_random-Keeps draws a h small
apply-Keeps (release t) a h small = release_ip-Keeps t a h

run-IsPool :
    (ops : List Op) (a : IpAllocator)
    → IsPool a
    → AllAdmissible (first a) (last a) ops
    → IsPool (run ops a)
unfolding run
run-IsPool [] a h all = h
run-IsPool (op ∷ ops) a h all =
    let (h', f, l) = apply-Keeps op a h all.0 in run-IsPool ops (apply op a) h' (rw (f, l) all.1)

-- From a pool whose table is valid, after any history of assignments by offset, random assignments
-- and releases, where the offsets do not wrap past 2 ^ 32 and the draws are at most the range, the
-- table holds distinct addresses of the range, and the number of available addresses and the number
-- of allocated ones add up to the size of the pool: the unsigned difference in `GetStatus` does not
-- wrap.
pub run_accounts :
    (ops : List Op) (a : IpAllocator)
    → IsPool a
    → AllAdmissible (first a) (last a) ops
    → IsPool (run ops a)
      × (available (run ops a) + length (run ops a).allocated ≡ (run ops a).total_ips)
unfolding available
run_accounts ops a h all =
    let b = run ops a in
    let h' = run-IsPool ops a h all in
    (
      h',
      omega (
        arith,
        h',
        pigeonhole (last b + 1 - first b) (first b) b.allocated (omega (arith, h')) h'.distinct
            h'.within,
      ),
    )
