-- ===== src/Server/Limiters.antt =====
-- Which of the limiters of two sessions `Server.proxy` of vnet/server/server.go uses.
use go_vnet.Base.{ℕ, ◌≡◌, refl, Bool, true, false, if◌then◌else◌, arith}
use go_vnet.Base.Int.{ℤ, pos, negsuc, ltb_ℤ, ◌≤ℤ◌}
use go_vnet.Server.{
  ChosenLimiter, no_limiter, limiter_of_dst, limiter_of_src, is_positive, choose_limiter,
}

-- the bandwidth of the session whose limiter it is
abbrev pub bandwidth_of : ChosenLimiter → ℤ → ℤ → ℤ
bandwidth_of no_limiter dst src = pos 0
bandwidth_of limiter_of_dst dst src = dst
bandwidth_of limiter_of_src dst src = src

never : (n : ℕ) → is_positive (negsuc n) ≡ true → ⊥
never n h = ground (arith, h)

-- If both sessions have a bandwidth, the bytes between them are limited to the larger one of the
-- two.
pub choose_limiter_largest :
    (dst src : ℤ)
    → is_positive dst ≡ true
    → is_positive src ≡ true
    → (dst ≤ℤ bandwidth_of (choose_limiter dst src) dst src)
      × (src ≤ℤ bandwidth_of (choose_limiter dst src) dst src)
unfolding choose_limiter
choose_limiter_largest (negsuc d) src one two = absurd (never d one)
choose_limiter_largest (pos d) (negsuc s) one two = absurd (never s two)
choose_limiter_largest (pos d) (pos s) one two = rw (one, two) (larger (ltb_ℤ (pos s) (pos d)) refl)
  where
    larger :
        (b : Bool)
        → ltb_ℤ (pos s) (pos d) ≡ b
        → (pos d ≤ℤ bandwidth_of (if b then limiter_of_dst else limiter_of_src) (pos d) (pos s))
          × (pos s ≤ℤ bandwidth_of (if b then limiter_of_dst else limiter_of_src) (pos d) (pos s))
    larger true e = ground arith
    larger false e = ground arith
