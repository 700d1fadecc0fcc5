-- ===== src/Rate/Returns.antt =====
-- Tokens that are given back: `PutBack` and `PutBackFromLast` of common/rate/limiter.go.
use mathlib.Core.Path.{subst}
use go_vnet.Base.{
  ℕ, ◌-◌, ◌*◌, ◌/◌, ◌^◌, ◌≤◌, ◌<◌, ◌≡◌, refl, sym, ap, ◌∙◌, Bool, true, false, arith, ltb, lt→ltb,
  if◌then◌else◌, ◌&&◌,
}
use go_vnet.Base.Int.{ℤ, pos, ltb_ℤ, ◌-ℤ◌, ◌*ℤ◌}
use go_vnet.Base.Int64.{int64, int64-pos, -ℤ_pos, *ℤ_pos, ◌/ℤ◌}
use go_vnet.Rate.{Limiter, is_positive, cap_sum, put_back, put_back_from_last}
use go_vnet.Rate.Bucket.{Bucket, filled, cap_sum-pos}
use go_vnet.Rate.Bounds.{Granted, filled_le}

abbrev returned : ℕ → Limiter → ℤ
returned n l = cap_sum l.burst l.available (int64 (pos n *ℤ pos l.precision))

abbrev after_put_back : ℕ → Limiter → Limiter
after_put_back n l = record l {
  available = returned n l;
  last_consumed = if ltb_ℤ l.last_consumed (pos n) then pos 0 else int64 (l.last_consumed -ℤ pos n);
}

abbrev reported : ℕ → Limiter → ℤ
reported n l =
    let difference = int64 (returned n l -ℤ l.available) in
    (if is_positive difference then difference else pos 0) /ℤ l.precision

put_back_positive :
    (n : ℕ) (l : Limiter) → 0 < n → put_back (pos n) l ≡ (after_put_back n l, reported n l)
unfolding put_back
put_back_positive n l h = rw (lt→ltb 0 n h) refl

level_ge : (a b x : ℕ) → a ≤ b → a ≤ filled a b x
level_ge a b x h = ground arith

whole : (d : ℕ) → (if ltb 0 d then pos d else pos 0) /ℤ 1000000 ≡ pos (d / 1000000)
unfolding ◌/ℤ◌
whole d = ground arith

left_over :
    (c n : ℕ)
    → c < 2 ^ 63
    → (if ltb_ℤ (pos c) (pos n) then pos 0 else int64 (pos c -ℤ pos n)) ≡ pos (c - n)
unfolding int64 ◌-ℤ◌
left_over c n h = ground arith

-- `m` has the level, the last consumption and the answer of a return.
abbrev pub Returned : ℕ → ℕ → ℕ → ℕ → ℕ → ℕ → Limiter × ℤ → Type 0
Returned t a r b c answer m = Bucket t a r b m.0 × (m.0.last_consumed ≡ pos c) × (m.1 ≡ pos answer)

-- `PutBack` raises the level by `n` tokens, cut at the capacity, reports the whole tokens of the
-- raise, and takes `n` off the last consumption, down to 0.
pub put_back-Returned :
    {t a r b c : ℕ} (n : ℕ) (l : Limiter)
    → Bucket t a r b l
    → l.last_consumed ≡ pos c
    → c < 2 ^ 63
    → a ≤ b
    → b < 2 ^ 62
    → 0 < n
    → n * 1000000 < 2 ^ 62
    → Returned t
        (filled a b (n * 1000000))
        r
        b
        (c - n)
        ((filled a b (n * 1000000) - a) / 1000000)
        (put_back (pos n) l)
put_back-Returned {t} {a} {r} {b} {c} n l h last fits le small positive request =
    subst (Returned t level r b (c - n) ((level - a) / 1000000))
      (sym (put_back_positive n l positive))
      (
        record {
          updated = h.updated;
          level = level_is;
          speed = h.speed;
          capacity = h.capacity;
          unit = h.unit;
        },
        rw last (left_over c n fits),
        answer,
      )
  where
    level : ℕ
    level = filled a b (n * 1000000)

    level_is : returned n l ≡ pos level
    level_is =
        rw (h.unit, *ℤ_pos n 1000000, int64-pos (n * 1000000) (omega arith), h.level, h.capacity)
          (cap_sum-pos a b (n * 1000000) (omega arith))

    answer : reported n l ≡ pos ((level - a) / 1000000)
    answer =
        rw
          (
            level_is,
            h.level,
            h.unit,
            -ℤ_pos level a (level_ge a b (n * 1000000) le),
            int64-pos (level - a) (omega (arith, filled_le a b (n * 1000000) le)),
          )
          (whole (level - a))

put_back_from_last_part :
    (c u : ℕ) (l : Limiter)
    → l.last_consumed ≡ pos c
    → u < c
    → c < 2 ^ 63
    → put_back_from_last (pos u) l ≡ put_back (pos (c - u)) l
unfolding put_back_from_last
put_back_from_last_part c u l last part fits = rw (not_negative, both, unused) refl
  where
    not_negative : ltb_ℤ (pos u) (pos 0) ≡ false
    not_negative = ground arith

    unused : int64 (l.last_consumed -ℤ pos u) ≡ pos (c - u)
    unused = rw (last, -ℤ_pos c u (omega arith)) (int64-pos (c - u) (omega arith))

    both : (is_positive l.last_consumed && is_positive (int64 (l.last_consumed -ℤ pos u))) ≡ true
    both = rw (unused, last, lt→ltb 0 c (omega arith), lt→ltb 0 (c - u) (omega arith)) refl

-- After a granted request of `n` tokens, `PutBackFromLast` with the `used` of them, fewer than `n`,
-- reports the others and leaves the bucket with the level that a request of `used` would have left.
pub put_back_from_last-Granted :
    {t level r b : ℕ} (n used : ℕ) (m : Limiter × Bool)
    → Granted t level r b n m
    → level ≤ b
    → b < 2 ^ 62
    → used < n
    → Returned t (level - used * 1000000) r b used (n - used) (put_back_from_last (pos used) m.0)
put_back_from_last-Granted {t} {level} {r} {b} n used m (enough, _, h, last) le small part =
    subst (Returned t (level - used * 1000000) r b used (n - used))
      (sym (put_back_from_last_part n used m.0 last part (omega arith)))
      (exact (ground arith) (omega arith) (ground arith) (
        put_back-Returned (n - used) m.0 h last (omega arith) (omega arith) small (omega arith)
          (omega arith)))
  where
    exact :
        {y d reply : ℕ}
        → y ≡ level - used * 1000000
        → d ≡ used
        → reply ≡ n - used
        → Returned t y r b d reply (put_back (pos (n - used)) m.0)
        → Returned t (level - used * 1000000) r b used (n - used) (put_back (pos (n - used)) m.0)
    exact e f g (back, last, reply) = (
      subst (λ x. Bucket t x r b (put_back (pos (n - used)) m.0).0) e back,
      last ∙ ap pos f,
      reply ∙ ap pos g,
    )
