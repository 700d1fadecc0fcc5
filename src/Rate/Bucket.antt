-- ===== src/Rate/Bucket.antt =====
-- The limiter of common/rate/limiter.go as a bucket of natural numbers.
use mathlib.Core.Path.{subst}
use go_vnet.Base.{
  ℕ, ◌+◌, ◌-◌, ◌*◌, ◌/◌, ◌^◌, ◌≤◌, ◌<◌, ◌≡◌, refl, sym, ap, ◌∙◌, ◌⊎◌, inl, inr, Bool, true, false,
  arith, Bool-cases, ltb, if◌then◌else◌, ltb→le, ltb→lt, lt→ltb,
}
use go_vnet.Base.Int.{ℤ, pos, ◌-ℤ◌, ◌*ℤ◌, ltb_ℤ}
use go_vnet.Base.Int64.{int64, int64-pos, +ℤ_pos, -ℤ_pos, *ℤ_pos, ◌/ℤ◌}
use go_vnet.Rate.{Limiter, is_positive, cap_sum, elapsed, added, refill, consume, allow_n}

-- updated at time `t`, with `a` tokens of at most `b` at a rate of `r`, in millionths
pub record Bucket (t a r b : ℕ) (l : Limiter) : Type 0 where
  pub updated : l.last_update ≡ pos t
  pub level : l.available ≡ pos a
  pub speed : l.rate ≡ pos r
  pub capacity : l.burst ≡ pos b
  pub unit : l.precision ≡ 1000000

module _ {t a r b : ℕ} {l : Limiter} where
  pub elapsed-Bucket :
      (now : ℕ) → Bucket t a r b l → t ≤ now → now < 2 ^ 63 → elapsed (pos now) l ≡ pos (now - t)
  unfolding elapsed
  elapsed-Bucket now h later small =
      rw (h.updated, -ℤ_pos now t later) (int64-pos (now - t) (omega arith))

  -- no overflow
  pub added-Bucket :
      (now : ℕ)
      → Bucket t a r b l
      → t ≤ now
      → now < 2 ^ 63
      → (now - t) * r < 2 ^ 63
      → added (pos now) l ≡ pos ((now - t) * r / 1000000000)
  unfolding added ◌/ℤ◌
  added-Bucket now h later small fits =
      rw
        (
          elapsed-Bucket now h later small,
          h.speed,
          *ℤ_pos (now - t) r,
          int64-pos ((now - t) * r) fits,
        )
        refl

-- a quotient of an int64 by 10 ^ 9 is far from overflow
pub int64_quotient :
    (x : ℤ)
    → is_positive (int64 x /ℤ 1000000000) ≡ true
    → (d : ℕ) × (int64 x /ℤ 1000000000 ≡ pos d) × (d < 2 ^ 34)
unfolding int64 ◌/ℤ◌
int64_quotient x h = ground arith

pub cap_sum-pos :
    (a b c : ℕ)
    → a + c < 2 ^ 63
    → cap_sum (pos b) (pos a) (pos c) ≡ pos (if ltb b (a + c) then b else a + c)
unfolding cap_sum
cap_sum-pos a b c small = rw (+ℤ_pos a c, int64-pos (a + c) small) (ground arith)

-- a level after `x` more tokens
abbrev pub filled : ℕ → ℕ → ℕ → ℕ
filled a b x = if ltb b (a + x) then b else a + x

abbrev pub refilled : ℕ → Limiter → Limiter
refilled now l = record l {
  last_update = pos now;
  available =
      if is_positive (added (pos now) l)
      then cap_sum l.burst l.available (added (pos now) l)
      else l.available;
}

filled_nothing : (a b x : ℕ) → a ≤ b → x ≡ 0 → a ≡ filled a b (x / 1000000000)
filled_nothing a b x le z = ground arith

no_time : (d r : ℕ) → d ≤ 0 → d * r ≡ 0
no_time d r z = let none_passed : d ≡ 0 = omega arith in rw none_passed (omega arith)

added_small :
    (now : ℕ) (l : Limiter)
    → is_positive (added (pos now) l) ≡ true
    → (d : ℕ) × (added (pos now) l ≡ pos d) × (d < 2 ^ 34)
unfolding added
added_small now l h = int64_quotient (elapsed (pos now) l *ℤ l.rate) h

refill_later :
    (now : ℕ) (l : Limiter)
    → is_positive (elapsed (pos now) l) ≡ true
    → refill (pos now) l ≡ refilled now l
unfolding refill
refill_later now l h = rw h refl

refill_same :
    (now : ℕ) (l : Limiter) → is_positive (elapsed (pos now) l) ≡ false → refill (pos now) l ≡ l
unfolding refill
refill_same now l h = rw h refl

abbrev after_consume : ℕ → Limiter → Limiter
after_consume n l = record l {
  available = int64 (l.available -ℤ int64 (pos n *ℤ pos l.precision));
  last_consumed = pos n;
}

consume_short :
    (n : ℕ) (l : Limiter)
    → ltb_ℤ l.available (int64 (pos n *ℤ pos l.precision)) ≡ true
    → consume (pos n) l ≡ (l, false)
unfolding consume
consume_short n l h = rw h refl

consume_enough :
    (n : ℕ) (l : Limiter)
    → ltb_ℤ l.available (int64 (pos n *ℤ pos l.precision)) ≡ false
    → consume (pos n) l ≡ (after_consume n l, true)
unfolding consume
consume_enough n l h = rw h refl

module _ {t a r b : ℕ} {l : Limiter} where
  refilled-Bucket :
      (now d : ℕ)
      → Bucket t a r b l
      → added (pos now) l ≡ pos d
      → a + d < 2 ^ 63
      → a ≤ b
      → Bucket now (filled a b d) r b (refilled now l)
  refilled-Bucket now d h e small le = record {
    updated = refl;
    level = rw e level_of;
    speed = h.speed;
    capacity = h.capacity;
    unit = h.unit;
  }
    where
      level_of :
          (if ltb 0 d then cap_sum l.burst l.available (pos d) else l.available)
          ≡ pos (filled a b d)
      level_of = elim (Bool-cases (ltb 0 d)) [
        | inl more ↦ rw (more, h.capacity, h.level) (cap_sum-pos a b d small)
        | inr nothing ↦ rw nothing (h.level ∙ ap pos (ground arith))
      ]

  -- Without overflow a refill adds the rate times the time, up to the capacity.
  pub refill-Bucket :
      (now : ℕ)
      → Bucket t a r b l
      → a ≤ b
      → b < 2 ^ 62
      → t ≤ now
      → now < 2 ^ 63
      → (now - t) * r < 2 ^ 63
      → Bucket now (filled a b ((now - t) * r / 1000000000)) r b (refill (pos now) l)
  refill-Bucket now h le small later fits product = elim (Bool-cases (ltb 0 (now - t))) [
    | inl moved ↦
        subst (Bucket now level r b) (sym (refill_later now l (ap is_positive since ∙ moved)))
          (refilled-Bucket now gained h (added-Bucket now h later fits product) (omega arith) le)
    | inr still ↦
        subst (Bucket now level r b) (sym (refill_same now l (ap is_positive since ∙ still)))
          (same (ltb→le 0 (now - t) still))
  ]
    where
      gained : ℕ
      gained = (now - t) * r / 1000000000

      level : ℕ
      level = filled a b gained

      since : elapsed (pos now) l ≡ pos (now - t)
      since = elapsed-Bucket now h later fits

      same : now - t ≤ 0 → Bucket now level r b l
      same z = record {
        updated = h.updated ∙ ap pos (omega arith);
        level = h.level ∙ ap pos (filled_nothing a b ((now - t) * r) le (no_time (now - t) r z));
        speed = h.speed;
        capacity = h.capacity;
        unit = h.unit;
      }

  -- With no token to add, only the time is updated.
  pub refill-stalls :
      (now : ℕ)
      → Bucket t a r b l
      → is_positive (elapsed (pos now) l) ≡ true
      → is_positive (added (pos now) l) ≡ false
      → Bucket now a r b (refill (pos now) l)
  refill-stalls now h moved nothing =
      subst (Bucket now a r b) (sym (refill_later now l moved)) record {
        updated = refl;
        level = rw nothing h.level;
        speed = h.speed;
        capacity = h.capacity;
        unit = h.unit;
      }

  -- Whatever the clock says, the level stays between what it was and the capacity.
  pub refill-level :
      (now : ℕ)
      → Bucket t a r b l
      → a ≤ b
      → b < 2 ^ 62
      → (t' a' : ℕ) × Bucket t' a' r b (refill (pos now) l) × (a ≤ a') × (a' ≤ b)
  refill-level now h le small = elim (Bool-cases (is_positive (elapsed (pos now) l))) [
    | inr still ↦ (t, a, subst (Bucket t a r b) (sym (refill_same now l still)) h, omega arith, le)
    | inl moved ↦ elim (Bool-cases (is_positive (added (pos now) l))) [
      | inl more ↦ raised moved more
      | inr nothing ↦ (now, a, refill-stalls now h moved nothing, omega arith, le)
    ]
  ]
    where
      raised :
          is_positive (elapsed (pos now) l) ≡ true
          → is_positive (added (pos now) l) ≡ true
          → (t' a' : ℕ) × Bucket t' a' r b (refill (pos now) l) × (a ≤ a') × (a' ≤ b)
      raised moved more =
          let (d, e, bound) = added_small now l more in
          (
            now,
            filled a b d,
            subst (Bucket now (filled a b d) r b) (sym (refill_later now l moved))
                (refilled-Bucket now d h e (omega arith) le),
            ground arith,
            ground arith,
          )

  -- A request takes what it asks for if the level holds it, and is refused if not.
  pub consume-Bucket :
      (n : ℕ)
      → Bucket t a r b l
      → n * 1000000 < 2 ^ 63
      → a < 2 ^ 63
      → ((a < n * 1000000) × (consume (pos n) l ≡ (l, false)))
        ⊎ ((n * 1000000 ≤ a)
            × ((consume (pos n) l).1 ≡ true)
            × Bucket t (a - n * 1000000) r b (consume (pos n) l).0
            × ((consume (pos n) l).0.last_consumed ≡ pos n))
  consume-Bucket n h small fits = elim (Bool-cases (ltb a (n * 1000000))) [
    | inl short ↦ inl (ltb→lt a (n * 1000000) short, consume_short n l (test ∙ short))
    | inr enough ↦
        let got =
          subst Taken (sym (consume_enough n l (test ∙ enough)))
            (refl, taken (ltb→le a (n * 1000000) enough), refl) in
        inr (ltb→le a (n * 1000000) enough, got.0, got.1, got.2)
  ]
    where
      request : int64 (pos n *ℤ pos l.precision) ≡ pos (n * 1000000)
      request = rw (h.unit, *ℤ_pos n 1000000) (int64-pos (n * 1000000) small)

      test : ltb_ℤ l.available (int64 (pos n *ℤ pos l.precision)) ≡ ltb a (n * 1000000)
      test = rw (h.level, request) (ground arith)

      Taken : Limiter × Bool → Type 0
      Taken m = (m.1 ≡ true) × Bucket t (a - n * 1000000) r b m.0 × (m.0.last_consumed ≡ pos n)

      taken : n * 1000000 ≤ a → Bucket t (a - n * 1000000) r b (after_consume n l)
      taken held = record {
        updated = h.updated;
        level =
            rw (h.level, request, -ℤ_pos a (n * 1000000) held)
              (int64-pos (a - n * 1000000) (omega arith));
        speed = h.speed;
        capacity = h.capacity;
        unit = h.unit;
      }

pub allow_n_positive :
    (n : ℕ) (now : ℤ) (l : Limiter) → 0 < n → allow_n (pos n) now l ≡ consume (pos n) (refill now l)
unfolding allow_n
allow_n_positive n now l h = rw (lt→ltb 0 n h) refl
