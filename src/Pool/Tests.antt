-- ===== src/Pool/Tests.antt =====
-- A pool of numbers whose `sync.Pool` counts up.
use go_vnet.Base.{ℕ, ◌+◌, ◌≡◌, refl, [], ◌∷◌}
use go_vnet.Pool.{BufferedPool, new_buffered_pool, get}

abbrev next : ℕ → ℕ × ℕ
next n = (n, n + 1)

abbrev drop_it : ℕ → ℕ → ℕ
drop_it e n = n

abbrev one_of_three : BufferedPool ℕ ℕ
one_of_three = record { pool = 3; ch = 7 ∷ []; room = 3 }

filled : new_buffered_pool next drop_it 2 0 ≡ record { pool = 2; ch = 0 ∷ 1 ∷ []; room = 2 }
unfolding new_buffered_pool
filled = refl

falls_back :
    get next drop_it (record { pool = 3; ch = []; room = 3 })
    ≡ (3, record { pool = 4; ch = []; room = 3 })
unfolding get
falls_back = refl
