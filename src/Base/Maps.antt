-- ===== src/Base/Maps.antt =====
-- Maps from numbers as lists of their entries: Go's maps and `sync.Map`.
use Prim.Native.Nat.{ℕ}
use mathlib.Core.Path.{◌≡◌, refl}
use mathlib.Core.Option.{Option, none, some}
use mathlib.Core.List.{List, [], ◌∷◌}
use native.Mathlib.Omega.{arith}
use go_vnet.Base.Tests.{◌==◌, if◌then◌else◌}

module _ {V : Type 0} where
  unfoldable pub find : ℕ → List (ℕ × V) → Option V
  find key [] = none
  find key ((k, v) ∷ entries) = if k == key then some v else find key entries

  unfoldable pub store : ℕ → V → List (ℕ × V) → List (ℕ × V)
  store key v [] = (key, v) ∷ []
  store key v ((k, old) ∷ entries) =
      if k == key then (key, v) ∷ entries else (k, old) ∷ store key v entries

  unfoldable pub delete : ℕ → List (ℕ × V) → List (ℕ × V)
  delete key [] = []
  delete key ((k, v) ∷ entries) =
      let rest = delete key entries in if k == key then rest else (k, v) ∷ rest

  pub find-store :
      (key k : ℕ) (v : V) (entries : List (ℕ × V))
      → find key (store k v entries) ≡ (if k == key then some v else find key entries)
  unfolding find store
  find-store key k v [] = refl
  find-store key k v ((x, old) ∷ entries) = ground (arith, find-store key k v entries)

  pub find-delete :
      (key k : ℕ) (entries : List (ℕ × V))
      → find key (delete k entries) ≡ (if k == key then none else find key entries)
  unfolding find delete
  find-delete key k [] = ground arith
  find-delete key k ((x, old) ∷ entries) = ground (arith, find-delete key k entries)
