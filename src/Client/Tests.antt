-- ===== src/Client/Tests.antt =====
-- A client at the address 10.0.0.1 with the routes 1, 2 and 10 of its network.
use go_vnet.Base.{
  ℕ, ◌+◌, ◌≡◌, refl, Bool, true, false, Option, none, some, List, [], ◌∷◌, codes, ◌==◌,
  if◌then◌else◌, find,
}
use go_vnet.Base.Int.{pos, ◌+ℤ◌, ◌*ℤ◌}
use go_vnet.Base.Int64.{int64}
use go_vnet.Client.{fib_loop, fib, next_interval, sleeping, member, update_router, has_prefix}
use go_vnet.Client.Routes.{is_some, update_router-refines}

ten_tries : next_interval 10 ≡ pos 30
unfolding next_interval fib fib_loop int64 ◌+ℤ◌
ten_tries = refl

three_tries : next_interval 3 ≡ pos 5
unfolding next_interval fib fib_loop int64 ◌+ℤ◌
three_tries = refl

-- the sum of the 91st try overflows, and so does the time that is computed from it: 197 years
overflow : sleeping 91 ≡ pos 6222817618722264064
unfolding sleeping next_interval fib fib_loop int64 ◌+ℤ◌ ◌*ℤ◌
overflow = refl

abbrev ticks : List Bool
ticks = false ∷ false ∷ true ∷ false ∷ false ∷ false ∷ []

-- the routes by their last byte
abbrev text : ℕ → List ℕ
text k =
    if k == 1
    then codes "10.0.0.1/32"
    else if k == 2
    then codes "10.0.0.2/32"
    else codes "10.0.0.10/32"

abbrev known : List (ℕ × Option ℕ)
known = (1, none) ∷ (5, some 105) ∷ []

update_router-refines_example :
    find 2 (update_router some text (codes "10.0.0.1") (λ k. k + 100) (1 ∷ 2 ∷ 10 ∷ []) known).0 ≡ (
      if member 2 (1 ∷ 2 ∷ 10 ∷ [])
      then (if is_some (find 2 known)
          then find 2 known
          else if has_prefix (text 2) (codes "10.0.0.1")
          then some none
          else some (some 102))
      else none)
update_router-refines_example =
    update_router-refines some text (codes "10.0.0.1") (λ k. k + 100) (1 ∷ 2 ∷ 10 ∷ []) known 2
      (refl, (refl, (refl, tt)))

abbrev mapping : List (ℕ × Option ℕ)
mapping = (2, some 20) ∷ (3, none) ∷ []
