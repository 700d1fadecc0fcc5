-- ===== src/Addresses/Random.antt =====
-- common/addresses/ip_pool.go: `AssignRandom`.
use native.Mathlib.Decide.{dec_lt}
use go_vnet.Base.{
  ℕ, zero, suc, ◌+◌, ◌%◌, ◌^◌, ◌≤◌, ◌<◌, ◌≡◌, ◌⊎◌, inl, inr, refl, ap, sym, ◌∙◌, true, false, arith,
  leb, Bool-cases, length, leb→le, leb→lt,
}
use go_vnet.Addresses.{
  IpAllocator, ok, err, failed_to_find, no_available, uint32_to_ip, mark, with_bits, assign_draw,
  max_attempts, assign_random,
}
use go_vnet.Addresses.Assignment.{first, is_taken, Takes, mark-Takes}

-- The address that round `i` of the random search draws.
abbrev pub drawn : (ℕ → ℕ) → ℕ → IpAllocator → ℕ
drawn draws i a = (first a + draws i) % 2 ^ 32

pub assign_draw_cases :
    (n i : ℕ) (draws : ℕ → ℕ) (a : IpAllocator)
    → let r = assign_draw n i draws a in
      ((r ≡ (a, err failed_to_find))
        × ((j : ℕ) → i ≤ j → j < i + n → is_taken (drawn draws j a) a ≡ true))
      ⊎ ((j : ℕ) × (i ≤ j)
          × (j < i + n)
          × (r ≡ (
            mark (uint32_to_ip (drawn draws j a)) a,
            ok (with_bits (uint32_to_ip (drawn draws j a)) a),
          ))
          × (is_taken (drawn draws j a) a ≡ false))
unfolding assign_draw
assign_draw_cases zero i draws a = inl (refl, λ j lo hi. absurd (omega arith))
assign_draw_cases (suc n) i draws a = elim (Bool-cases (is_taken (drawn draws i a) a)) [
  | inr free ↦ inr (i, omega arith, omega arith, rw free, free)
  | inl taken ↦ elim (assign_draw_cases n (i + 1) draws a) [
    | inr (j, lo, hi, e, free) ↦ inr (j, omega arith, omega arith, rw taken e, free)
    | inl (e, all) ↦ inl (rw taken e, later taken all)
  ]
]
  where
    later :
        is_taken (drawn draws i a) a ≡ true
        → ((j : ℕ) → i + 1 ≤ j → j < i + 1 + n → is_taken (drawn draws j a) a ≡ true)
        → (j : ℕ) → i ≤ j
        → j < i + suc n
        → is_taken (drawn draws j a) a ≡ true
    later taken all j lo hi = elim (dec_lt i j) [
      | yes beyond ↦ all j (omega arith) (omega arith)
      | no here ↦
          let e : i ≡ j = omega arith in ap (λ k. is_taken (drawn draws k a) a) (sym e) ∙ taken
    ]

-- `AssignRandom`, on every branch. It reports that no address is available if the table has at
-- least as many entries as the pool has addresses; else that it found none if each of its 1000
-- draws is taken. Then nothing changes. Otherwise it takes one of the drawn addresses, which was
-- free.
pub assign_random_cases :
    (draws : ℕ → ℕ) (a : IpAllocator)
    → let r = assign_random draws a in
      ((a.total_ips ≤ length a.allocated % 2 ^ 32) × (r ≡ (a, err no_available)))
      ⊎ ((length a.allocated % 2 ^ 32 < a.total_ips)
          × (r ≡ (a, err failed_to_find))
          × ((j : ℕ) → j < 1000 → is_taken (drawn draws j a) a ≡ true))
      ⊎ ((length a.allocated % 2 ^ 32 < a.total_ips)
          × ((j : ℕ) × (j < 1000)
              × (r.1 ≡ ok (with_bits (uint32_to_ip (drawn draws j a)) a))
              × Takes (drawn draws j a) a r.0))
unfolding assign_random
assign_random_cases draws a = elim (Bool-cases (leb a.total_ips (length a.allocated % 2 ^ 32))) [
  | inl full ↦ inl (leb→le _ _ full, rw full)
  | inr room ↦ roomy room (assign_draw_cases max_attempts 0 draws a)
]
  where
    roomy :
        leb a.total_ips (length a.allocated % 2 ^ 32) ≡ false
        → ((assign_draw max_attempts 0 draws a ≡ (a, err failed_to_find))
            × ((j : ℕ) → 0 ≤ j → j < 0 + max_attempts → is_taken (drawn draws j a) a ≡ true))
          ⊎ ((j : ℕ) × (0 ≤ j)
              × (j < 0 + max_attempts)
              × (assign_draw max_attempts 0 draws a ≡ (
                mark (uint32_to_ip (drawn draws j a)) a,
                ok (with_bits (uint32_to_ip (drawn draws j a)) a),
              ))
              × (is_taken (drawn draws j a) a ≡ false))
        → ((a.total_ips ≤ length a.allocated % 2 ^ 32)
            × (assign_random draws a ≡ (a, err no_available)))
          ⊎ ((length a.allocated % 2 ^ 32 < a.total_ips)
              × (assign_random draws a ≡ (a, err failed_to_find))
              × ((j : ℕ) → j < 1000 → is_taken (drawn draws j a) a ≡ true))
          ⊎ ((length a.allocated % 2 ^ 32 < a.total_ips)
              × ((j : ℕ) × (j < 1000)
                  × ((assign_random draws a).1 ≡ ok (with_bits (uint32_to_ip (drawn draws j a)) a))
                  × Takes (drawn draws j a) a (assign_random draws a).0))
    roomy room (inl (e, all)) = inr (inl (leb→lt _ _ room, rw room e, λ j h. all j (omega arith) h))
    roomy room (inr (j, lo, hi, e, free)) = inr (
        inr (
          leb→lt _ _ room,
          (j, hi, rw (room, e) refl, rw (room, e) (mark-Takes _ a (omega arith) free)),
        ))
