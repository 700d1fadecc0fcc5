-- ===== src/Router/Table.antt =====
-- The routing table that a trie stands for: at each prefix, a list of bits, the target registered
-- there. An insertion and a removal change it at one prefix.
use go_vnet.Base.{
  ℕ, zero, suc, ◌+◌, ◌≡◌, refl, Bool, true, false, Option, none, some, List, [], ◌∷◌, arith,
  if◌then◌else◌, ◌>>=◌, >>=-eq-some,
}
use go_vnet.Router.{
  TrieNode, nil, node, bit_at, visit, child, set_child, stamp, unstamp, ensure, fresh, is_nil,
  insert_loop, remove_loop,
}

-- The bits `i`, `i + 1`, … of an address, `n` of them.
unfoldable pub path : ℕ → ℕ → List ℕ → Option (List Bool)
path zero i ip = some []
path (suc n) i ip = do b ← bit_at ip i; bs ← path n (i + 1) ip; some (b ∷ bs)

pub path-suc :
    (n i : ℕ) (ip : List ℕ) {p : List Bool}
    → path (suc n) i ip ≡ some p
    → (b : Bool) × (bs : List Bool) × (bit_at ip i ≡ some b)
      × (path n (i + 1) ip ≡ some bs)
      × (p ≡ b ∷ bs)
unfolding path
path-suc n i ip e =
    let (b, eb, e') = >>=-eq-some (bit_at ip i) _ e in
    let (bs, es, e'') = >>=-eq-some (path n (i + 1) ip) _ e' in (b, bs, eb, es, cc)

abbrev pub bits_eq : List Bool → List Bool → Bool
bits_eq [] [] = true
bits_eq (true ∷ p) (true ∷ q) = bits_eq p q
bits_eq (false ∷ p) (false ∷ q) = bits_eq p q
bits_eq _ _ = false

module _ {ℓ} {V : Type ℓ} where
  -- The target registered at a prefix.
  unfoldable pub entry : TrieNode V → List Bool → Option V
  unfolding visit child
  entry t [] = visit t none
  entry t (b ∷ q) = entry (child t b) q

  unfoldable pub insert_at : List Bool → V → TrieNode V → TrieNode V
  unfolding stamp set_child child ensure fresh
  insert_at [] v t = stamp v t
  insert_at (b ∷ p) v t = set_child t b (insert_at p v (ensure (child t b)))

  unfoldable pub remove_at : List Bool → TrieNode V → TrieNode V
  unfolding unstamp set_child child is_nil
  remove_at [] t = unstamp t
  remove_at (b ∷ p) t = if is_nil (child t b) then t else set_child t b (remove_at p (child t b))

  pub entry-nil : (q : List Bool) → entry nil q ≡ none
  unfolding entry
  entry-nil [] = refl
  entry-nil (b ∷ q) = entry-nil q

  nil_unchanged : (b : Bool) (q : List Bool) → entry nil q ≡ (if b then none else entry nil q)
  nil_unchanged true q = entry-nil q
  nil_unchanged false q = refl

  entry-ensure : (t : TrieNode V) (q : List Bool) → entry (ensure t) q ≡ entry t q
  unfolding ensure fresh entry
  entry-ensure nil [] = refl
  entry-ensure nil (false ∷ q) = refl
  entry-ensure nil (true ∷ q) = refl
  entry-ensure (node z o l g) q = refl

  pub ensure_is_node : (t : TrieNode V) → is_nil (ensure t) ≡ false
  unfolding ensure fresh is_nil
  ensure_is_node nil = refl
  ensure_is_node (node z o l g) = refl

  pub insert_loop-path :
      (n i : ℕ) (ip : List ℕ) (v : V) (t : TrieNode V) {p : List Bool}
      → path n i ip ≡ some p
      → insert_loop n i ip v t ≡ some (insert_at p v t)
  unfolding path insert_loop insert_at
  insert_loop-path zero i ip v t e = cc
  insert_loop-path (suc n) i ip v t e =
      let (b, bs, eb, es, ep) = path-suc n i ip e in
      ground (arith, eb, ep, insert_loop-path n (i + 1) ip v (ensure (child t b)) es)

  pub remove_loop-path :
      (n i : ℕ) (ip : List ℕ) (t : TrieNode V) {p : List Bool}
      → path n i ip ≡ some p
      → remove_loop n i ip t ≡ some (remove_at p t)
  unfolding path remove_loop remove_at
  remove_loop-path zero i ip t e = cc
  remove_loop-path (suc n) i ip t e =
      let (b, bs, eb, es, ep) = path-suc n i ip e in
      ground (arith, eb, ep, remove_loop-path n (i + 1) ip (child t b) es)

  pub entry-insert_at :
      (p : List Bool) (v : V) (t : TrieNode V) (q : List Bool)
      → is_nil t ≡ false
      → entry (insert_at p v t) q ≡ (if bits_eq p q then some v else entry t q)
  unfolding insert_at entry is_nil
  entry-insert_at p v nil q h = cc
  entry-insert_at [] v (node z o l g) [] h = refl
  entry-insert_at [] v (node z o l g) (false ∷ q) h = refl
  entry-insert_at [] v (node z o l g) (true ∷ q) h = refl
  entry-insert_at (false ∷ p) v (node z o l g) [] h = refl
  entry-insert_at (true ∷ p) v (node z o l g) [] h = refl
  entry-insert_at (false ∷ p) v (node z o l g) (true ∷ q) h = refl
  entry-insert_at (true ∷ p) v (node z o l g) (false ∷ q) h = refl
  entry-insert_at (false ∷ p) v (node z o l g) (false ∷ q) h =
      rw (entry-insert_at p v (ensure z) q (ensure_is_node z), entry-ensure z q)
  entry-insert_at (true ∷ p) v (node z o l g) (true ∷ q) h =
      rw (entry-insert_at p v (ensure o) q (ensure_is_node o), entry-ensure o q)

  pub entry-remove_at :
      (p : List Bool) (t : TrieNode V) (q : List Bool)
      → entry (remove_at p t) q ≡ (if bits_eq p q then none else entry t q)
  unfolding remove_at entry
  entry-remove_at [] nil [] = refl
  entry-remove_at [] nil (b ∷ q) = refl
  entry-remove_at [] (node z o l g) [] = refl
  entry-remove_at [] (node z o l g) (false ∷ q) = refl
  entry-remove_at [] (node z o l g) (true ∷ q) = refl
  entry-remove_at (b ∷ p) nil q = nil_unchanged (bits_eq (b ∷ p) q) q
  entry-remove_at (b ∷ p) (node z o l g) [] = ground arith
  entry-remove_at (false ∷ p) (node z o l g) (true ∷ q) = ground arith
  entry-remove_at (true ∷ p) (node z o l g) (false ∷ q) = ground arith
  entry-remove_at (false ∷ p) (node nil o l g) (false ∷ q) = nil_unchanged (bits_eq p q) q
  entry-remove_at (false ∷ p) (node (node z z' l' g') o l g) (false ∷ q) =
      entry-remove_at p (node z z' l' g') q
  entry-remove_at (true ∷ p) (node z nil l g) (true ∷ q) = nil_unchanged (bits_eq p q) q
  entry-remove_at (true ∷ p) (node z (node o o' l' g') l g) (true ∷ q) =
      entry-remove_at p (node o o' l' g') q
