-- ===== src/Router/Listing.antt =====
-- common/router/router.go: `Range`, `Keys` and the input of `MD5`: the walks over the tries, and
-- the routes that they report.
pub mod Contents
pub mod Digest
use go_vnet.Base.{
  ℕ, zero, suc, ◌+◌, ◌-◌, ◌≤◌, ◌<◌, ◌≡◌, refl, ap, ◌∙◌, Bool, true, false, not, ◌&&◌, ◌||◌, Option,
  none, some, List, [], ◌∷◌, ◌++◌, map, append_assoc, append-nil, arith, length, ltb, leb,
  if◌then◌else◌,
}
use go_vnet.Router.{TrieNode, nil, node, Router, Text, child, visit, is_nil}
use go_vnet.Router.Table.{entry, entry-nil}
use go_vnet.Router.Cidr.{prefix_to_cidr}

abbrev pub max_depth : ℕ
max_depth = 128

module _ {ℓ} {V : Type ℓ} where
  -- `collectRoutes`; the calls of `fn` are the list of their arguments
  unfoldable pub collect_routes : TrieNode V → List Bool → ℕ → Bool → List (Text × V)
  unfolding visit
  collect_routes nil prefix depth is_ipv4 = []
  collect_routes (node z o l g) prefix depth is_ipv4 =
      if leb max_depth depth
      then []
      else elim (visit (node z o l g) none) [
        | some v ↦ (prefix_to_cidr prefix depth is_ipv4, v) ∷ []
        | none ↦ []
      ]
        ++ (collect_routes z (prefix ++ false ∷ []) (depth + 1) is_ipv4
            ++ collect_routes o (prefix ++ true ∷ []) (depth + 1) is_ipv4)

  -- `Range` and `Keys`
  unfoldable pub range : Router V → List (Text × V)
  unfolding collect_routes
  range r = collect_routes r.v4 [] 0 true ++ collect_routes r.v6 [] 0 false

  unfoldable pub keys : Router V → List Text
  unfolding range
  keys r = map (λ route. route.0) (range r)

  -- `zero != nil && (zero.leaf.Load() || zero.zero.Load() != nil || zero.one.Load() != nil)`
  unfoldable pub worth_visiting : TrieNode V → Bool
  unfolding is_nil
  worth_visiting nil = false
  worth_visiting (node z o l g) = l || not (is_nil z) || not (is_nil o)

  -- `collectMD5`: all that is written to the hash, in order
  unfoldable pub collect_md5 : TrieNode V → List Bool → ℕ → List Bool
  unfolding visit worth_visiting
  collect_md5 nil prefix depth = []
  collect_md5 (node z o l g) prefix depth =
      if leb max_depth depth
      then []
      else elim (visit (node z o l g) none) [ some _ ↦ prefix | none ↦ [] ]
        ++ ((if worth_visiting z then collect_md5 z (prefix ++ false ∷ []) (depth + 1) else [])
            ++ (if worth_visiting o then collect_md5 o (prefix ++ true ∷ []) (depth + 1) else []))

  -- what `MD5` hashes
  unfoldable pub md5_input : Router V → List Bool
  unfolding collect_md5
  md5_input r = collect_md5 r.v4 [] 0 ++ collect_md5 r.v6 [] 0

  -- The routes of a trie with fewer than `m` bits, in the order of the walk.
  unfoldable pub routes : ℕ → TrieNode V → List (List Bool × V)
  unfolding visit
  routes zero t = []
  routes (suc m) nil = []
  routes (suc m) (node z o l g) =
      elim (visit (node z o l g) none) [ some v ↦ ([], v) ∷ [] | none ↦ [] ]
      ++ (map (λ e. (false ∷ e.0, e.1)) (routes m z) ++ map (λ e. (true ∷ e.0, e.1)) (routes m o))
