-- ===== src/Router/Lookup.antt =====
-- common/router/router.go: `lookupIPv4` and `lookupIPv6`, and the prefixes of an address.
use go_vnet.Base.{
  ℕ, zero, suc, ◌+◌, ◌-◌, ◌*◌, ◌/◌, ◌≤◌, ◌<◌, ◌≡◌, refl, ap, ◌∙◌, Bool, true, false, Option, none,
  some, List, [], ◌∷◌, arith, length, take, or_else, get_elem?, not, ◌==◌, ◌^◌, ◌%◌,
}
use go_vnet.Router.{
  TrieNode, nil, node, Router, bit_at, visit, child, is_nil, lookup_loop, lookup_ipv4, lookup_ipv6,
}
use go_vnet.Router.Table.{path, path-suc, entry, entry-nil}

module _ {ℓ} {V : Type ℓ} where
  -- The target of the longest prefix of `bs` in the table `f`.
  unfoldable pub longest : (List Bool → Option V) → List Bool → Option V
  longest f [] = f []
  longest f (b ∷ bs) = or_else (longest (λ q. f (b ∷ q)) bs) (f [])

  longest-none :
      (f : List Bool → Option V) (bs : List Bool)
      → ((q : List Bool) → f q ≡ none)
      → longest f bs ≡ none
  unfolding longest
  longest-none f [] h = h []
  longest-none f (b ∷ bs) h = rw (longest-none (λ q. f (b ∷ q)) bs (λ q. h (b ∷ q))) (h [])

  or_else_assoc : (a b c : Option V) → or_else (or_else a b) c ≡ or_else a (or_else b c)
  or_else_assoc (some a) b c = refl
  or_else_assoc none b c = refl

  visit_lem : (t : TrieNode V) (best : Option V) → visit t best ≡ or_else (visit t none) best
  unfolding visit
  visit_lem nil best = refl
  visit_lem (node z o true (some v)) best = refl
  visit_lem (node z o true none) best = refl
  visit_lem (node z o false g) best = refl

  visit_twice : (t : TrieNode V) (best : Option V) → visit t (visit t best) ≡ visit t best
  unfolding visit
  visit_twice nil best = refl
  visit_twice (node z o true (some v)) best = refl
  visit_twice (node z o true none) best = refl
  visit_twice (node z o false g) best = refl

  nil_of_is_nil : (t : TrieNode V) → is_nil t ≡ true → t ≡ nil
  unfolding is_nil
  nil_of_is_nil nil h = refl
  nil_of_is_nil (node z o l g) h = cc

  lookup_loop-longest :
      (n i : ℕ) (ip : List ℕ) (t : TrieNode V) (best : Option V) {bs : List Bool}
      → path n i ip ≡ some bs
      → lookup_loop n i ip t best ≡ some (or_else (longest (entry t) bs) best)
  unfolding path lookup_loop longest entry
  lookup_loop-longest zero i ip t best {bs} e = ground (arith, e, visit_lem t best)
  lookup_loop-longest (suc n) i ip t best {bs} e =
      let (b, rest, eb, es, ep) = path-suc n i ip e in
      ground (
        arith,
        eb,
        ep,
        below (child t b) rest,
        visit_twice t best,
        visit_lem t best,
        or_else_assoc (longest (entry (child t b)) rest) (visit t none) best,
        lookup_loop-longest n (i + 1) ip (child t b) (visit t best) es,
      )
    where
      below : (c : TrieNode V) (bs : List Bool) → is_nil c ≡ true → longest (entry c) bs ≡ none
      below c bs h = rw (nil_of_is_nil c h) (longest-none (entry nil) bs entry-nil)

  -- `o` is the target of the longest prefix of `bs` at which `f` has one, or `f` has none at any.
  abbrev pub IsLongestMatch : (List Bool → Option V) → List Bool → Option V → Type ℓ
  IsLongestMatch f bs none = (m : ℕ) → m ≤ length bs → f (take m bs) ≡ none
  IsLongestMatch f bs (some v) =
      (k : ℕ) × (k ≤ length bs)
      × (f (take k bs) ≡ some v)
      × ((m : ℕ) → k < m → m ≤ length bs → f (take m bs) ≡ none)

  longest_cons :
      (f : List Bool → Option V) (b : Bool) (bs : List Bool) (o : Option V)
      → IsLongestMatch (λ q. f (b ∷ q)) bs o
      → IsLongestMatch f (b ∷ bs) (or_else o (f []))
  longest_cons f b bs (some v) (k, le, found, none_above) = (suc k, omega arith, found, beyond)
    where
      beyond : (m : ℕ) → suc k < m → m ≤ suc (length bs) → f (take m (b ∷ bs)) ≡ none
      beyond zero lt le' = absurd (omega arith)
      beyond (suc m) lt le' = none_above m (omega arith) (omega arith)
  longest_cons f b bs none no_match = at_root (f []) refl
    where
      beyond : (m : ℕ) → 0 < m → m ≤ suc (length bs) → f (take m (b ∷ bs)) ≡ none
      beyond zero lt le' = absurd (omega arith)
      beyond (suc m) lt le' = no_match m (omega arith)

      everywhere : f [] ≡ none → (m : ℕ) → m ≤ suc (length bs) → f (take m (b ∷ bs)) ≡ none
      everywhere e zero le' = e
      everywhere e (suc m) le' = no_match m (omega arith)

      at_root : (o : Option V) → f [] ≡ o → IsLongestMatch f (b ∷ bs) o
      at_root none e = everywhere e
      at_root (some v) e = (0, omega arith, e, beyond)

  longest-IsLongestMatch :
      (f : List Bool → Option V) (bs : List Bool) → IsLongestMatch f bs (longest f bs)
  unfolding longest
  longest-IsLongestMatch f [] = at_end (f []) refl
    where
      only : f [] ≡ none → (m : ℕ) → m ≤ 0 → f (take m []) ≡ none
      only e zero le = e
      only e (suc m) le = absurd (omega arith)

      past : (m : ℕ) → 0 < m → m ≤ 0 → f (take m []) ≡ none
      past m lt le = absurd (omega arith)

      at_end : (o : Option V) → f [] ≡ o → IsLongestMatch f [] o
      at_end none e = only e
      at_end (some v) e = (0, omega arith, e, past)
  longest-IsLongestMatch f (b ∷ bs) =
      longest_cons f b bs (longest (λ q. f (b ∷ q)) bs) (longest-IsLongestMatch (λ q. f (b ∷ q)) bs)

get_elem?-total {ℓ} :
    {A : Type ℓ} (xs : List A) (i : ℕ) → i < length xs → (x : A) × (get_elem? xs i ≡ some x)
get_elem?-total [] i h = absurd (omega arith)
get_elem?-total (x ∷ xs) zero h = (x, refl)
get_elem?-total (x ∷ xs) (suc i) h = get_elem?-total xs i (omega arith)

bit_at_total : (ip : List ℕ) (i : ℕ) → i < 8 * length ip → (b : Bool) × (bit_at ip i ≡ some b)
unfolding bit_at
bit_at_total ip i h =
    let (byte, e) = get_elem?-total ip (i / 8) (omega arith) in
    (not (byte / 2 ^ (7 - i % 8) % 2 == 0), rw e refl)

-- An address of `k` bytes has `8 * k` bits to follow.
pub path_total :
    (n i : ℕ) (ip : List ℕ)
    → i + n ≤ 8 * length ip
    → (bs : List Bool) × (path n i ip ≡ some bs) × (length bs ≡ n)
unfolding path
path_total zero i ip h = ([], refl, refl)
path_total (suc n) i ip h =
    let (b, eb) = bit_at_total ip i (omega arith) in
    let (bs, es, el) = path_total n (i + 1) ip (omega arith) in
    (b ∷ bs, rw (eb, es) refl, ap suc el)

module _ {ℓ} {V : Type ℓ} where
  or_else-none : (o : Option V) → or_else o none ≡ o
  or_else-none none = refl
  or_else-none (some v) = refl

  lookup_loop_full :
      (n : ℕ) (ip : List ℕ) (t : TrieNode V) {bs : List Bool}
      → path n 0 ip ≡ some bs
      → lookup_loop n 0 ip t none ≡ some (longest (entry t) bs)
  lookup_loop_full n ip t {bs} e =
      lookup_loop-longest n 0 ip t none e ∙ ap some (or_else-none (longest (entry t) bs))

  pub lookup_ipv4_lem :
      (r : Router V) (ip : List ℕ) {bs : List Bool}
      → length ip ≡ 4
      → path 32 0 ip ≡ some bs
      → lookup_ipv4 r ip ≡ some (longest (entry r.v4) bs)
  unfolding lookup_ipv4
  lookup_ipv4_lem r ip h e = ground (arith, lookup_loop_full 32 ip r.v4 e)

  pub lookup_ipv6_lem :
      (r : Router V) (ip : List ℕ) {bs : List Bool}
      → length ip ≡ 16
      → path 128 0 ip ≡ some bs
      → lookup_ipv6 r ip ≡ some (longest (entry r.v6) bs)
  unfolding lookup_ipv6
  lookup_ipv6_lem r ip h e = ground (arith, lookup_loop_full 128 ip r.v6 e)

  -- On an address of four bytes the IPv4 lookup does not panic. Of the 32 address bits it returns
  -- the target of the longest prefix that is registered, and it reports a miss if no prefix is.
  pub lookup_ipv4-IsLongestMatch :
      (r : Router V) (ip : List ℕ)
      → length ip ≡ 4
      → (bs : List Bool) × (o : Option V) × (path 32 0 ip ≡ some bs)
        × (length bs ≡ 32)
        × (lookup_ipv4 r ip ≡ some o)
        × IsLongestMatch (entry r.v4) bs o
  lookup_ipv4-IsLongestMatch r ip h =
      let (bs, e, el) = path_total 32 0 ip (omega arith) in
      (
        bs,
        longest (entry r.v4) bs,
        e,
        el,
        lookup_ipv4_lem r ip h e,
        longest-IsLongestMatch (entry r.v4) bs,
      )

  -- On an address of sixteen bytes the IPv6 lookup does not panic. Of the 128 address bits it
  -- returns the target of the longest prefix that is registered, and it reports a miss if no prefix
  -- is.
  pub lookup_ipv6-IsLongestMatch :
      (r : Router V) (ip : List ℕ)
      → length ip ≡ 16
      → (bs : List Bool) × (o : Option V) × (path 128 0 ip ≡ some bs)
        × (length bs ≡ 128)
        × (lookup_ipv6 r ip ≡ some o)
        × IsLongestMatch (entry r.v6) bs o
  lookup_ipv6-IsLongestMatch r ip h =
      let (bs, e, el) = path_total 128 0 ip (omega arith) in
      (
        bs,
        longest (entry r.v6) bs,
        e,
        el,
        lookup_ipv6_lem r ip h e,
        longest-IsLongestMatch (entry r.v6) bs,
      )
