-- ===== src/Router/Listing/Contents.antt =====
-- common/router/router.go: the routes that `Range` reports.
use mathlib.Core.Path.{fun_ext, ap₂}
use mathlib.Core.List.{map-append}
use go_vnet.Base.{
  ℕ, zero, Bool-cases, inl, inr, suc, ◌+◌, ◌≤◌, ◌≡◌, refl, ap, sym, ◌∙◌, Bool, true, false, Option,
  none, some, List, [], ◌∷◌, ◌++◌, map, append_assoc, append-nil, arith, length, ltb, leb,
  if◌then◌else◌,
}
use go_vnet.Router.{TrieNode, nil, node, Router, Text, visit}
use go_vnet.Router.Table.{entry, entry-nil, bits_eq}
use go_vnet.Router.Cidr.{prefix_to_cidr}
use go_vnet.Router.Listing.{max_depth, collect_routes, range, routes}

not_below_zero : (n : ℕ) → ltb n 0 ≡ false
not_below_zero n = ground arith

below_suc : (n m : ℕ) → n ≤ m → ltb n (suc m) ≡ true
below_suc n m h = ground arith

ltb-suc : (n m : ℕ) → ltb (suc n) (suc m) ≡ ltb n m
ltb-suc n m = ground arith

module _ {ℓ} {V : Type ℓ} where
  -- The call of `fn` for a route found below `prefix`.
  abbrev report : List Bool → ℕ → Bool → List Bool × V → Text × V
  report prefix depth is_ipv4 e = (prefix_to_cidr (prefix ++ e.0) (depth + length e.0) is_ipv4, e.1)

  map-map {κ μ} :
      {B : Type κ} {C : Type μ} (g : B → C) (f : List Bool × V → B) (l : List (List Bool × V))
      → map g (map f l) ≡ map (λ e. g (f e)) l
  map-map g f [] = refl
  map-map g f (e ∷ l) = ap (◌∷◌ (g (f e))) (map-map g f l)

  report_below :
      (prefix : List Bool) (depth : ℕ) (f b : Bool) (l : List (List Bool × V))
      → map (report (prefix ++ b ∷ []) (depth + 1) f) l
        ≡ map (report prefix depth f) (map (λ e. (b ∷ e.0, e.1)) l)
  report_below prefix depth f b l =
      ap (λ h. map h l) (fun_ext pointwise) ∙ sym (map-map (report prefix depth f) _ l)
    where
      pointwise :
          (e : List Bool × V)
          → report (prefix ++ b ∷ []) (depth + 1) f e ≡ report prefix depth f (b ∷ e.0, e.1)
      pointwise e =
          ap₂ (λ p n. (prefix_to_cidr p n f, e.1)) (append_assoc prefix (b ∷ []) e.0) (omega arith)

  pub collect_routes-routes :
      (m : ℕ) (t : TrieNode V) (prefix : List Bool) (depth : ℕ) (f : Bool)
      → depth + m ≡ max_depth
      → collect_routes t prefix depth f ≡ map (report prefix depth f) (routes m t)
  unfolding collect_routes routes
  collect_routes-routes zero nil prefix depth f e = refl
  collect_routes-routes zero (node z o l g) prefix depth f e =
      let full : leb max_depth depth ≡ true = ground arith in rw full refl
  collect_routes-routes (suc m) nil prefix depth f e = refl
  collect_routes-routes (suc m) (node z o l g) prefix depth f e =
      let room : leb max_depth depth ≡ false = ground arith in
      rw
        (
          room,
          collect_routes-routes m z (prefix ++ false ∷ []) (depth + 1) f (omega arith),
          collect_routes-routes m o (prefix ++ true ∷ []) (depth + 1) f (omega arith),
          report_below prefix depth f false (routes m z),
          report_below prefix depth f true (routes m o),
          map-append,
          map-append,
          own_report (visit (node z o l g) none),
        )
        refl
    where
      own_report :
          (v : Option V)
          → elim v [ some v ↦ (prefix_to_cidr prefix depth f, v) ∷ [] | none ↦ [] ]
            ≡ map (report prefix depth f) (elim v [ some v ↦ ([], v) ∷ [] | none ↦ [] ])
      own_report none = refl
      own_report (some v) =
          ap₂ (λ p n. (prefix_to_cidr p n f, v) ∷ []) (sym (append-nil prefix)) (omega arith)

  -- What a list of routes has for a prefix.
  abbrev pub found : List Bool → List (List Bool × V) → List V
  found p [] = []
  found p ((q, v) ∷ l) = if bits_eq p q then v ∷ found p l else found p l

  abbrev pub to_list : Option V → List V
  to_list none = []
  to_list (some v) = v ∷ []

  found-append :
      (p : List Bool) (l k : List (List Bool × V)) → found p (l ++ k) ≡ found p l ++ found p k
  found-append p [] k = refl
  found-append p ((q, v) ∷ l) k = elim (Bool-cases (bits_eq p q)) [
    | inl same ↦ rw (same, found-append p l k) refl
    | inr differs ↦ rw (differs, found-append p l k) refl
  ]

  abbrev below : Bool → List (List Bool × V) → List (List Bool × V)
  below b = map λ e. (b ∷ e.0, e.1)

  found_root : (b : Bool) (l : List (List Bool × V)) → found [] (below b l) ≡ []
  found_root b [] = refl
  found_root b (e ∷ l) = found_root b l

  found_branch :
      (b : Bool) (p : List Bool) (l : List (List Bool × V)) → found (b ∷ p) (below b l) ≡ found p l
  found_branch b p [] = refl
  found_branch true p ((q, v) ∷ l) = rw (found_branch true p l) refl
  found_branch false p ((q, v) ∷ l) = rw (found_branch false p l) refl

  found-false_in_true :
      (p : List Bool) (l : List (List Bool × V)) → found (false ∷ p) (below true l) ≡ []
  found-false_in_true p [] = refl
  found-false_in_true p (e ∷ l) = found-false_in_true p l

  found-true_in_false :
      (p : List Bool) (l : List (List Bool × V)) → found (true ∷ p) (below false l) ≡ []
  found-true_in_false p [] = refl
  found-true_in_false p (e ∷ l) = found-true_in_false p l

  if_same : (b : Bool) (x : List V) → (if b then x else x) ≡ x
  if_same true x = refl
  if_same false x = refl

  abbrev own : Option V → List (List Bool × V)
  own o = elim o [ some v ↦ ([], v) ∷ [] | none ↦ [] ]

  found-own : (o : Option V) → found [] (own o) ≡ to_list o
  found-own none = refl
  found-own (some v) = refl

  found-own_below : (b : Bool) (p : List Bool) (o : Option V) → found (b ∷ p) (own o) ≡ []
  found-own_below b p none = refl
  found-own_below true p (some v) = refl
  found-own_below false p (some v) = refl

  -- Of the prefixes shorter than `m` bits, the walk reports each that has a target once, with it.
  pub found-routes :
      (m : ℕ) (t : TrieNode V) (p : List Bool)
      → found p (routes m t) ≡ (if ltb (length p) m then to_list (entry t p) else [])
  unfolding routes entry
  found-routes zero t p = rw (not_below_zero (length p)) refl
  found-routes (suc m) nil p = rw (entry-nil p) (sym (if_same (ltb (length p) (suc m)) []))
  found-routes (suc m) (node z o l g) [] =
      rw
        (
          found-append,
          found-append,
          found_root false (routes m z),
          found_root true (routes m o),
          append-nil,
          found-own,
          below_suc 0 m (omega arith),
        )
        refl
  found-routes (suc m) (node z o l g) (false ∷ p) =
      rw
        (
          found-append,
          found-append,
          found_branch false p (routes m z),
          found-false_in_true p (routes m o),
          append-nil,
          found-own_below false p,
          ltb-suc (length p) m,
        )
        (found-routes m z p)
  found-routes (suc m) (node z o l g) (true ∷ p) =
      rw
        (
          found-append,
          found-append,
          found_branch true p (routes m o),
          found-true_in_false p (routes m z),
          found-own_below true p,
          ltb-suc (length p) m,
        )
        (found-routes m o p)

  -- `Range` reports, for each family, the text form and target of the entries of a list `l`. In `l`
  -- a prefix of fewer than 128 bits stands once, with its target, if it is registered, and not at
  -- all if it is not; a prefix of 128 bits or more is missing from `l` even if it is registered.
  pub range-found :
      (r : Router V)
      → (l4 : List (List Bool × V)) × (l6 : List (List Bool × V)) × (range r
          ≡ map (λ e. (prefix_to_cidr e.0 (length e.0) true, e.1)) l4
            ++ map (λ e. (prefix_to_cidr e.0 (length e.0) false, e.1)) l6)
        × ((p : List Bool)
            → (found p l4 ≡ (if ltb (length p) 128 then to_list (entry r.v4 p) else []))
              × (found p l6 ≡ (if ltb (length p) 128 then to_list (entry r.v6 p) else [])))
  unfolding range
  range-found r = (
    routes 128 r.v4,
    routes 128 r.v6,
    ap₂ ◌++◌ (at_root r.v4 true) (at_root r.v6 false),
    λ p. (found-routes 128 r.v4 p, found-routes 128 r.v6 p),
  )
    where
      zero_depth :
          (f : Bool) (e : List Bool × V)
          → report [] 0 f e ≡ (prefix_to_cidr e.0 (length e.0) f, e.1)
      zero_depth f e = ap (λ n. (prefix_to_cidr e.0 n f, e.1)) (omega arith)

      at_root :
          (t : TrieNode V) (f : Bool)
          → collect_routes t [] 0 f
            ≡ map (λ e. (prefix_to_cidr e.0 (length e.0) f, e.1)) (routes 128 t)
      at_root t f =
          collect_routes-routes 128 t [] 0 f (omega arith)
          ∙ ap (λ h. map h (routes 128 t)) (fun_ext (zero_depth f))
