-- ===== src/Pool.antt =====
-- common/pool/pool.go: `BufferedPool`, a buffered channel in front of a `sync.Pool`, whose Get and
-- Put are parameters on its state. The `select` statements have a default case, so that no call
-- waits.
pub mod Order
mod Tests
use go_vnet.Base.{ℕ, zero, suc, ◌+◌, List, [], ◌∷◌, ◌++◌, length, ltb, if◌then◌else◌}

-- `room` is the capacity of the channel.
pub record BufferedPool {ℓ κ} (A : Type ℓ) (S : Type κ) : Type (ℓ ⊔ κ) where
  pub pool : S
  pub ch : List A
  pub room : ℕ

module _ {ℓ κ} {A : Type ℓ} {S : Type κ} (pool_get : S → A × S) (pool_put : A → S → S) where
  -- the loop that fills the channel
  unfoldable pub prefill : ℕ → S → List A × S
  prefill zero pool = ([], pool)
  prefill (suc n) pool =
      let taken = pool_get pool in let rest = prefill n taken.1 in (taken.0 ∷ rest.0, rest.1)

  -- `NewBufferedPool`
  unfoldable pub new_buffered_pool : ℕ → S → BufferedPool A S
  unfolding prefill
  new_buffered_pool min_pool_size pool =
      let filled = prefill min_pool_size pool in
      record { pool = filled.1; ch = filled.0; room = min_pool_size }

  -- what `Get` takes: the first of the channel, or one of the `sync.Pool`
  abbrev pub get_from : List A → BufferedPool A S → A × BufferedPool A S
  get_from [] p = let taken = pool_get p.pool in (taken.0, record p { pool = taken.1 })
  get_from (e ∷ rest) p = (e, record p { ch = rest })

  unfoldable pub get : BufferedPool A S → A × BufferedPool A S
  get p = get_from p.ch p

  unfoldable pub put : A → BufferedPool A S → BufferedPool A S
  put e p =
      if ltb (length p.ch) p.room
      then record p { ch = p.ch ++ e ∷ [] }
      else record p { pool = pool_put e p.pool }

  unfoldable pub size : BufferedPool A S → ℕ
  size p = length p.ch
