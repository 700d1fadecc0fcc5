-- ===== src/Base/Int64.antt =====
-- Go's int64: integers of 64 bits, whose sums and products wrap around.
use Prim.Native.Nat.{ℕ, ◌+◌, ◌-◌, ◌*◌, ◌/◌, ◌%◌, ◌^◌, ◌≤◌, ◌<◌}
use mathlib.Core.Path.{◌≡◌}
use native.Mathlib.Omega.{arith}
use go_vnet.Base.Tests.{ltb, if◌then◌else◌}
use go_vnet.Base.Int.{ℤ, pos, negsuc, pos_part, neg_part, ◌+ℤ◌, ◌-ℤ◌, ◌*ℤ◌, +ℤ_parts}

-- the 64 bits of an integer, and the int64 that 64 bits stand for
abbrev pub word : ℤ → ℕ
word a = (pos_part a + (2 ^ 64 - neg_part a % 2 ^ 64)) % 2 ^ 64

abbrev pub signed : ℕ → ℤ
signed w = if ltb w (2 ^ 63) then pos w else negsuc (2 ^ 64 - 1 - w)

-- what int64 arithmetic keeps of a result
unfoldable pub int64 : ℤ → ℤ
int64 a = signed (word a)

-- division by a positive number, which Go rounds towards zero
infixl 70 ◌/ℤ◌
unfoldable pub ◌/ℤ◌ : ℤ → ℕ → ℤ
unfolding ◌-ℤ◌
◌/ℤ◌ (pos n) d = pos (n / d)
◌/ℤ◌ (negsuc n) d = pos 0 -ℤ pos ((n + 1) / d)

-- Adding up and wrapping commute.
pub word-+ℤ : (a b : ℤ) → word (a +ℤ b) ≡ (word a + word b) % 2 ^ 64
word-+ℤ a b = omega (arith, +ℤ_parts a b)

pub word-int64 : (a : ℤ) → word (int64 a) ≡ word a
unfolding int64
word-int64 a = ground arith

pub int64-pos : (n : ℕ) → n < 2 ^ 63 → int64 (pos n) ≡ pos n
unfolding int64
int64-pos n h = ground arith

pub +ℤ_pos : (a b : ℕ) → pos a +ℤ pos b ≡ pos (a + b)
unfolding ◌+ℤ◌
+ℤ_pos a b = ground arith

pub -ℤ_pos : (a b : ℕ) → b ≤ a → pos a -ℤ pos b ≡ pos (a - b)
unfolding ◌-ℤ◌
-ℤ_pos a b h = ground arith

pub *ℤ_pos : (a b : ℕ) → pos a *ℤ pos b ≡ pos (a * b)
unfolding ◌*ℤ◌
*ℤ_pos a b = ground arith
