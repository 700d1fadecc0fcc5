-- ===== src/Rate/Overflow.antt =====
-- The product of time and rate in `AllowN` of common/rate/limiter.go, where it does not fit an
-- int64.
use mathlib.Core.Path.{subst}
use go_vnet.Base.{
  ℕ, ◌-◌, ◌*◌, ◌^◌, ◌≤◌, ◌<◌, ◌≡◌, refl, sym, Bool, true, false, arith, lt→ltb, inl, inr,
}
use go_vnet.Base.Int.{pos}
use go_vnet.Base.Int64.{int64, *ℤ_pos, ◌/ℤ◌}
use go_vnet.Rate.{Limiter, is_positive, elapsed, added, refill, allow_n}
use go_vnet.Rate.Bucket.{Bucket, elapsed-Bucket, refill-stalls, consume-Bucket, allow_n_positive}

quotient_overflow :
    (x : ℕ) → 2 ^ 63 ≤ x → x < 2 ^ 64 → is_positive (int64 (pos x) /ℤ 1000000000) ≡ false
unfolding int64 ◌/ℤ◌
quotient_overflow x lo hi = ground arith

added-overflow :
    {t a r b : ℕ} (now : ℕ) (l : Limiter)
    → Bucket t a r b l
    → t ≤ now
    → now < 2 ^ 63
    → 2 ^ 63 ≤ (now - t) * r
    → (now - t) * r < 2 ^ 64
    → is_positive (added (pos now) l) ≡ false
unfolding added
added-overflow {t} {r = r} now l h later small over below =
    rw (elapsed-Bucket now h later small, h.speed, *ℤ_pos (now - t) r)
      (quotient_overflow ((now - t) * r) over below)

-- After a pause whose length times the rate (in millionths per second) is at least 2 ^ 63 and below
-- 2 ^ 64, `AllowN` adds no token: a request that the level before the pause does not hold is
-- refused, and the time of the pause is used up.
pub allow_n-overflow :
    {t a r b : ℕ} (n now : ℕ) (l : Limiter)
    → Bucket t a r b l
    → t < now
    → now < 2 ^ 63
    → 2 ^ 63 ≤ (now - t) * r
    → (now - t) * r < 2 ^ 64
    → 0 < n
    → n * 1000000 < 2 ^ 63
    → a < n * 1000000
    → ((allow_n (pos n) (pos now) l).1 ≡ false) × Bucket now a r b (allow_n (pos n) (pos now) l).0
allow_n-overflow {t} {a} {r} {b} n now l h later small over below positive fits short =
    subst Refused (sym (allow_n_positive n (pos now) l positive))
      (elim (consume-Bucket n stalled fits (omega arith)) [
        | inl (_, e) ↦ subst Refused (sym e) (refl, stalled)
        | inr (enough, _, _, _) ↦ absurd (omega arith)
      ])
  where
    Refused : Limiter × Bool → Type 0
    Refused m = (m.1 ≡ false) × Bucket now a r b m.0

    moved : is_positive (elapsed (pos now) l) ≡ true
    moved = rw (elapsed-Bucket now h (omega arith) small) (lt→ltb 0 (now - t) (omega arith))

    stalled : Bucket now a r b (refill (pos now) l)
    stalled = refill-stalls now h moved (added-overflow now l h (omega arith) small over below)
