-- ===== src/Router/Listing/Digest.antt =====
-- common/router/router.go: the input of the hash in `MD5`.
use mathlib.Core.Path.{ap₂}
use go_vnet.Base.{
  ℕ, zero, suc, ◌+◌, ◌<◌, ◌≡◌, refl, ap, sym, ◌∙◌, Bool, true, false, Option, none, some, List, [],
  ◌∷◌, ◌++◌, map, append_assoc, append-nil, arith, length, leb, if◌then◌else◌, length-append,
  Bool-cases, inl, inr,
}
use go_vnet.Router.{TrieNode, nil, node, Router, visit}
use go_vnet.Router.Listing.{max_depth, collect_md5, md5_input, worth_visiting, routes}

module _ {ℓ} {V : Type ℓ} where
  abbrev pub digits : List (List Bool × V) → List Bool
  digits [] = []
  digits (e ∷ l) = e.0 ++ digits l

  -- The digits of routes found below `prefix`.
  abbrev digits_below : List Bool → List (List Bool × V) → List Bool
  digits_below prefix [] = []
  digits_below prefix (e ∷ l) = (prefix ++ e.0) ++ digits_below prefix l

  digits_below-append :
      (prefix : List Bool) (l k : List (List Bool × V))
      → digits_below prefix (l ++ k) ≡ digits_below prefix l ++ digits_below prefix k
  digits_below-append prefix [] k = refl
  digits_below-append prefix (e ∷ l) k =
      rw (digits_below-append prefix l k) (sym (append_assoc (prefix ++ e.0) _ _))

  digits_below-branch :
      (prefix : List Bool) (b : Bool) (l : List (List Bool × V))
      → digits_below (prefix ++ b ∷ []) l ≡ digits_below prefix (map (λ e. (b ∷ e.0, e.1)) l)
  digits_below-branch prefix b [] = refl
  digits_below-branch prefix b (e ∷ l) =
      ap₂ ◌++◌ (append_assoc prefix (b ∷ []) e.0) (digits_below-branch prefix b l)

  digits_below_root : (l : List (List Bool × V)) → digits_below [] l ≡ digits l
  digits_below_root [] = refl
  digits_below_root (e ∷ l) = rw (digits_below_root l) refl

  -- A child that is not visited has no routes.
  unvisited : (m : ℕ) (t : TrieNode V) → worth_visiting t ≡ false → routes m t ≡ []
  unfolding worth_visiting routes
  unvisited zero t h = refl
  unvisited (suc m) nil h = refl
  unvisited (suc m) (node (node z o l g) o' true g') h = cc
  unvisited (suc m) (node (node z o l g) o' false g') h = cc
  unvisited (suc m) (node nil (node z o l g) true g') h = cc
  unvisited (suc m) (node nil (node z o l g) false g') h = cc
  unvisited (suc m) (node nil nil true g) h = cc
  unvisited (suc zero) (node nil nil false g) h = refl
  unvisited (suc (suc m)) (node nil nil false g) h = refl

  collect_md5-routes :
      (m : ℕ) (t : TrieNode V) (prefix : List Bool) (depth : ℕ)
      → depth + m ≡ max_depth
      → collect_md5 t prefix depth ≡ digits_below prefix (routes m t)
  unfolding collect_md5 routes
  collect_md5-routes zero nil prefix depth e = refl
  collect_md5-routes zero (node z o l g) prefix depth e =
      let full : leb max_depth depth ≡ true = ground arith in rw full refl
  collect_md5-routes (suc m) nil prefix depth e = refl
  collect_md5-routes (suc m) (node z o l g) prefix depth e =
      let room : leb max_depth depth ≡ false = ground arith in
      rw
        (
          room,
          guarded z (collect_md5 z (prefix ++ false ∷ []) (depth + 1)) _
              (collect_md5-routes m z (prefix ++ false ∷ []) (depth + 1) (omega arith)),
          guarded o (collect_md5 o (prefix ++ true ∷ []) (depth + 1)) _
              (collect_md5-routes m o (prefix ++ true ∷ []) (depth + 1) (omega arith)),
          digits_below-branch prefix false (routes m z),
          digits_below-branch prefix true (routes m o),
          digits_below-append,
          digits_below-append,
          own_digits (visit (node z o l g) none),
        )
        refl
    where
      own_digits :
          (v : Option V)
          → elim v [ some _ ↦ prefix | none ↦ [] ]
            ≡ digits_below prefix (elim v [ some v ↦ ([], v) ∷ [] | none ↦ [] ])
      own_digits none = refl
      own_digits (some v) = sym (append-nil (prefix ++ []) ∙ append-nil prefix)

      guarded :
          (t : TrieNode V) (written : List Bool) (p : List Bool)
          → written ≡ digits_below p (routes m t)
          → (if worth_visiting t then written else []) ≡ digits_below p (routes m t)
      guarded t written p h = elim (Bool-cases (worth_visiting t)) [
        | inl visited ↦ rw visited h
        | inr skipped ↦ rw (skipped, unvisited m t skipped) refl
      ]

  -- `MD5` hashes the binary prefixes of the routes of fewer than 128 bits, one behind the other
  -- with nothing between them, those of the IPv4 tree first: the branches that it skips hold none.
  pub md5_input-routes :
      (r : Router V)
      → md5_input r ≡ digits (routes max_depth r.v4) ++ digits (routes max_depth r.v6)
  unfolding md5_input
  md5_input-routes r = ap₂ ◌++◌ (at_root r.v4) (at_root r.v6)
    where
      at_root : (t : TrieNode V) → collect_md5 t [] 0 ≡ digits (routes max_depth t)
      at_root t =
          collect_md5-routes max_depth t [] 0 (omega arith) ∙ digits_below_root (routes max_depth t)

  -- The prefixes of a list of routes, and that all are of `n` bits.
  abbrev pub prefixes : List (List Bool × V) → List (List Bool)
  prefixes = map λ e. e.0

  abbrev pub AllOfLength : ℕ → List (List Bool × V) → Type 0
  AllOfLength n [] = Unit
  AllOfLength n (e ∷ l) = (length e.0 ≡ n) × AllOfLength n l

append_cancel : (p q r s : List Bool) → length p ≡ length q → p ++ r ≡ q ++ s → (p ≡ q) × (r ≡ s)
append_cancel [] [] r s len e = (refl, e)
append_cancel [] (b ∷ q) r s len e = absurd (omega arith)
append_cancel (b ∷ p) [] r s len e = absurd (omega arith)
append_cancel (b ∷ p) (c ∷ q) r s len e =
    let (same, rest) = append_cancel p q r s (omega arith) (cc) in (cc, rest)

module _ {ℓ} {V : Type ℓ} where
  digits-injective :
      (n : ℕ) (l k : List (List Bool × V))
      → 0 < n
      → AllOfLength n l
      → AllOfLength n k
      → digits l ≡ digits k
      → prefixes l ≡ prefixes k
  digits-injective n [] [] pos hl hk e = refl
  digits-injective n [] (x ∷ k) pos hl hk e =
      absurd (omega (arith, ap length e, length-append x.0 (digits k)))
  digits-injective n (x ∷ l) [] pos hl hk e =
      absurd (omega (arith, ap length e, length-append x.0 (digits l)))
  digits-injective n (x ∷ l) (y ∷ k) pos hl hk e =
      let (same, rest) = append_cancel x.0 y.0 (digits l) (digits k) (omega arith) e in
      ap₂ ◌∷◌ same (digits-injective n l k pos hl.1 hk.1 rest)

  -- Where two routers hold no IPv6 routes, and all their IPv4 routes are `n` bits long, `n` not 0,
  -- they hash the same input only if they have the same prefixes: the client that compares
  -- digests misses no added and no removed host route, hash collisions aside.
  pub md5_input-injective :
      (n : ℕ) (r s : Router V)
      → 0 < n
      → AllOfLength n (routes max_depth r.v4)
      → AllOfLength n (routes max_depth s.v4)
      → routes max_depth r.v6 ≡ []
      → routes max_depth s.v6 ≡ []
      → md5_input r ≡ md5_input s
      → prefixes (routes max_depth r.v4) ≡ prefixes (routes max_depth s.v4)
  md5_input-injective n r s pos hr hs r6 s6 e =
      digits-injective n (routes max_depth r.v4) (routes max_depth s.v4) pos hr hs
        (sym (alone r r6) ∙ e ∙ alone s s6)
    where
      alone :
          (r : Router V) → routes max_depth r.v6 ≡ [] → md5_input r ≡ digits (routes max_depth r.v4)
      alone r h =
          md5_input-routes r
          ∙ ap (λ l. digits (routes max_depth r.v4) ++ digits l) h
          ∙ append-nil (digits (routes max_depth r.v4))
