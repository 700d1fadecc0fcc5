-- ===== src/Tcp/Links/Counting.antt =====
-- How often a connection stands in the lists and the map of vnet/client/client_tcp.go.
use go_vnet.Base.{
  ℕ, ◌+◌, ◌≡◌, refl, none, some, List, [], ◌∷◌, ◌++◌, arith, ◌==◌, if◌then◌else◌, find, store,
  delete, find-store, find-delete, Bool-cases, inl, inr,
}
use go_vnet.Tcp.Links.{values}

unfoldable pub count : ℕ → List ℕ → ℕ
count n [] = 0
count n (x ∷ xs) = let rest = count n xs in if x == n then 1 + rest else rest

pub count-append : (n : ℕ) (xs ys : List ℕ) → count n (xs ++ ys) ≡ count n xs + count n ys
unfolding count
count-append n [] ys = omega arith
count-append n (x ∷ xs) ys = ground (arith, count-append n xs ys)

-- one entry for an address
pub data IsMap : List (ℕ × ℕ) → Type 0 where
  empty : IsMap []
  entry : {k n : ℕ} {m : List (ℕ × ℕ)} → find k m ≡ none → IsMap m → IsMap ((k, n) ∷ m)

pub store-IsMap : (k n : ℕ) (m : List (ℕ × ℕ)) → IsMap m → IsMap (store k n m)
unfolding store find
store-IsMap k n [] empty = entry refl empty
store-IsMap k n ((x, old) ∷ m) (entry absent rest) = elim (Bool-cases (x == k)) [
  | inl same ↦ rw same (entry (ground (arith, absent, same)) rest)
  | inr other ↦
      rw other (entry (ground (arith, absent, other, find-store x k n m)) (store-IsMap k n m rest))
]

pub delete-IsMap : (k : ℕ) (m : List (ℕ × ℕ)) → IsMap m → IsMap (delete k m)
unfolding delete
delete-IsMap k [] empty = empty
delete-IsMap k ((x, old) ∷ m) (entry absent rest) = elim (Bool-cases (x == k)) [
  | inl same ↦ rw same (delete-IsMap k m rest)
  | inr other ↦
      rw other (entry (ground (arith, absent, other, find-delete x k m)) (delete-IsMap k m rest))
]

pub count-store :
    (i k n : ℕ) (m : List (ℕ × ℕ))
    → find k m ≡ none
    → count i (values (store k n m)) ≡ count i (n ∷ values m)
unfolding count values store find
count-store i k n [] absent = refl
count-store i k n ((x, old) ∷ m) absent = ground (arith, count-store i k n m)

delete-absent : (k : ℕ) (m : List (ℕ × ℕ)) → find k m ≡ none → delete k m ≡ m
unfolding find delete
delete-absent k [] absent = refl
delete-absent k ((x, n) ∷ m) absent = ground (arith, delete-absent k m)

pub count-delete :
    (i k n : ℕ) (m : List (ℕ × ℕ))
    → IsMap m
    → find k m ≡ some n
    → count i (values m) ≡ count i (n ∷ values (delete k m))
unfolding count values delete find
count-delete i k n [] map found = ground arith
count-delete i k n ((x, old) ∷ m) (entry absent rest) found = elim (Bool-cases (x == k)) [
  | inl same ↦ ground (arith, same, absent, found, delete-absent x m absent)
  | inr other ↦ ground (arith, other, found, count-delete i k n m rest)
]
