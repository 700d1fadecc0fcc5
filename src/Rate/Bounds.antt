-- ===== src/Rate/Bounds.antt =====
-- What `AllowN` of common/rate/limiter.go grants: request by request, and over a run of requests.
use mathlib.Core.Path.{subst}
use native.Mathlib.Nat.{add-mul}
use go_vnet.Base.{
  ℕ, ◌+◌, ◌-◌, ◌*◌, ◌/◌, ◌^◌, ◌≤◌, ◌<◌, ◌≡◌, refl, sym, ap, ◌∙◌, inl, inr, ◌⊎◌, Bool, true, false,
  List, [], ◌∷◌, arith, if◌then◌else◌,
}
use go_vnet.Base.Int.{pos}
use go_vnet.Rate.{Limiter, refill, allow_n}
use go_vnet.Rate.Bucket.{Bucket, filled, refill-Bucket, consume-Bucket, allow_n_positive}

-- a request of `n` tokens, refused and granted
abbrev pub Refused : ℕ → ℕ → ℕ → ℕ → ℕ → Limiter × Bool → Type 0
Refused now level r b n m = (level < n * 1000000) × (m.1 ≡ false) × Bucket now level r b m.0

abbrev pub Granted : ℕ → ℕ → ℕ → ℕ → ℕ → Limiter × Bool → Type 0
Granted now level r b n m =
    (n * 1000000 ≤ level)
    × (m.1 ≡ true)
    × Bucket now (level - n * 1000000) r b m.0
    × (m.0.last_consumed ≡ pos n)

pub filled_le : (a b x : ℕ) → a ≤ b → (filled a b x ≤ a + x) × (filled a b x ≤ b)
filled_le a b x h = (ground arith, ground arith)

-- `AllowN` first raises the level by the rate times the time since the last update, up to the
-- capacity, and then grants the request if that level holds it, which it takes out, and refuses it
-- if not. The numbers are such that no product overflows, and the clock has not gone back.
pub allow_n_cases :
    {t a r b : ℕ} (n now : ℕ) (l : Limiter)
    → Bucket t a r b l
    → a ≤ b
    → b < 2 ^ 62
    → t ≤ now
    → now < 2 ^ 63
    → (now - t) * r < 2 ^ 63
    → 0 < n
    → n * 1000000 < 2 ^ 63
    → let level = filled a b ((now - t) * r / 1000000000) in
      Refused now level r b n (allow_n (pos n) (pos now) l)
      ⊎ Granted now level r b n (allow_n (pos n) (pos now) l)
allow_n_cases {t} {a} {r} {b} n now l h le small later fits product positive request =
    subst Either (sym (allow_n_positive n (pos now) l positive))
      (elim (consume-Bucket n full request (omega (arith, filled_le a b gained le))) [
        | inl (short, e) ↦ subst Either (sym e) (inl (short, refl, full))
        | inr granted ↦ inr granted
      ])
  where
    gained : ℕ
    gained = (now - t) * r / 1000000000

    level : ℕ
    level = filled a b gained

    full : Bucket now level r b (refill (pos now) l)
    full = refill-Bucket now h le small later fits product

    Either : Limiter × Bool → Type 0
    Either m = Refused now level r b n m ⊎ Granted now level r b n m

-- requests with the time of each, and the number of tokens that are granted
abbrev pub run : List (ℕ × ℕ) → Limiter → Limiter × ℕ
run [] l = (l, 0)
run ((n, now) ∷ requests) l =
    let m = allow_n (pos n) (pos now) l in
    let rest = run requests m.0 in (rest.0, (if m.1 then n else 0) + rest.1)

abbrev pub end_time : ℕ → List (ℕ × ℕ) → ℕ
end_time t [] = t
end_time t ((n, now) ∷ requests) = end_time now requests

-- The clock never goes back from `t` on, and no product overflows.
abbrev pub Steady : ℕ → ℕ → List (ℕ × ℕ) → Type 0
Steady r t [] = Unit
Steady r t ((n, now) ∷ requests) =
    (t ≤ now)
    × (now < 2 ^ 63)
    × ((now - t) * r < 2 ^ 63)
    × (0 < n)
    × (n * 1000000 < 2 ^ 63)
    × Steady r now requests

-- The tokens that a run of `AllowN` calls grants, in millionths, are at most the level at its start
-- and the rate times the time until its end; the bound is multiplied by 10 ^ 9, since the rate is
-- per second and the clock counts nanoseconds. The clock does not go back, and no product
-- overflows.
pub run-bound :
    (requests : List (ℕ × ℕ)) {t a r b : ℕ} (l : Limiter)
    → Bucket t a r b l
    → a ≤ b
    → b < 2 ^ 62
    → Steady r t requests
    → (t ≤ end_time t requests)
      × ((run requests l).1 * 1000000 * 1000000000 ≤ a * 1000000000 + (end_time t requests - t) * r)
run-bound [] l h le small steady = (omega arith, omega arith)
run-bound ((n, now) ∷ requests) {t} {a} {r} {b} l h le small
      (later, fits, product, positive, request, steady) =
    elim (allow_n_cases n now l h le small later fits product positive request) [
      | inl (short, refused, rest) ↦
          let (after, bound) =
            run-bound requests (allow_n (pos n) (pos now) l).0 rest (filled_le a b gained le).1
              small steady in
          (
            omega arith,
            rw refused (
                omega
                  (arith, bound, filled_le a b gained le, passes (end_time now requests) after)),
          )
      | inr (enough, granted, rest, _) ↦
          let (after, bound) =
            run-bound requests (allow_n (pos n) (pos now) l).0 rest
              (omega (arith, filled_le a b gained le)) small steady in
          (
            omega arith,
            rw granted (
                omega
                  (arith, bound, filled_le a b gained le, passes (end_time now requests) after)),
          )
    ]
  where
    gained : ℕ
    gained = (now - t) * r / 1000000000

    passes : (until : ℕ) → now ≤ until → (until - t) * r ≡ (until - now) * r + (now - t) * r
    passes until h = ap (λ x. x * r) (omega arith) ∙ add-mul (until - now) (now - t) r
