-- ===== src/Client/Routes.antt =====
-- The routes of the client after `updateRouter`, vnet/client/sync_router.go.
use mathlib.Core.Path.{ap₂}
use go_vnet.Base.{
  ℕ, ◌≡◌, refl, sym, ap, ◌∙◌, Bool, true, false, Option, none, some, List, [], ◌∷◌, ◌++◌, arith,
  ◌==◌, ==_iff, if◌then◌else◌, Bool-cases, inl, inr, find, find-store, find-delete,
}
use go_vnet.Client.{
  member, to_set, map_keys, has_prefix, Table, remove_route, remove_stale, new_target, register,
  add_new, update_router,
}

member-to_set : (k : ℕ) (ks : List ℕ) → member k (to_set ks) ≡ member k ks
unfolding member to_set
member-to_set k [] = refl
member-to_set k (x ∷ ks) = elim (Bool-cases (member x ks)) [
  | inl twice ↦ rw twice (elim (Bool-cases (x == k)) [
    | inl same ↦
        rw same (member-to_set k ks ∙ sym (ap (λ y. member y ks) ((==_iff x k).0 same)) ∙ twice)
    | inr other ↦ rw other (member-to_set k ks)
  ])
  | inr once ↦ rw (once, member-to_set k ks) refl
]

abbrev pub is_some : {V : Type 0} → Option V → Bool
is_some none = false
is_some (some v) = true

pub member-map_keys :
    {V : Type 0} (k : ℕ) (entries : List (ℕ × V))
    → member k (map_keys entries) ≡ is_some (find k entries)
unfolding member map_keys find
member-map_keys k [] = refl
member-map_keys k ((x, v) ∷ entries) = elim (Bool-cases (x == k)) [
  | inl same ↦ rw same refl
  | inr other ↦ rw other (member-map_keys k entries)
]

-- a number is a member when it is equal to one that is, or is not
pub member_same :
    (x k : ℕ) (ks : List ℕ) {b : Bool} → (x == k) ≡ true → member x ks ≡ b → member k ks ≡ b
member_same x k ks same e = sym (ap (λ y. member y ks) ((==_iff x k).0 same)) ∙ e

removed_once :
    (k x : ℕ) (remote : List ℕ) (table : Table)
    → find k (if member x remote then table else remove_route x table).0
      ≡ (if x == k then (if member k remote then find k table.0 else none) else find k table.0)
unfolding remove_route
removed_once k x remote table = elim (Bool-cases (member x remote)) [
  | inl kept ↦ rw kept (elim (Bool-cases (x == k)) [
    | inl same ↦ rw (same, member_same x k remote same kept) refl
    | inr other ↦ rw other refl
  ])
  | inr gone ↦
      rw (gone, find-delete k x table.0)
        (elim (Bool-cases (x == k)) [
          | inl same ↦ rw (same, member_same x k remote same gone) refl
          | inr other ↦ rw other refl
        ])
]

-- what stays of the client's routes
remove_stale-find :
    (k : ℕ) (remote current : List ℕ) (table : Table)
    → find k (remove_stale remote current table).0 ≡ (
        if member k current
        then (if member k remote then find k table.0 else none)
        else find k table.0)
unfolding remove_stale member
remove_stale-find k remote [] table = refl
remove_stale-find k remote (x ∷ current) table =
    remove_stale-find k remote current (if member x remote then table else remove_route x table)
    ∙ ap (λ o. if member k current then (if member k remote then o else none) else o)
        (removed_once k x remote table)
    ∙ either_one (member k current) (member k remote) (x == k) (find k table.0)
  where
    either_one :
        (c r s : Bool) (o : Option (Option ℕ))
        → (if c
            then (if r then (if s then (if r then o else none) else o) else none)
            else (if s then (if r then o else none) else o))
          ≡ (if (if s then true else c) then (if r then o else none) else o)
    either_one true true true o = refl
    either_one true true false o = refl
    either_one true false true o = refl
    either_one true false false o = refl
    either_one false r true o = refl
    either_one false r false o = refl

-- texts that are the text of the key that the router makes of them
abbrev pub AllCanonical : (ℕ → Option ℕ) → List ℕ → Type 0
AllCanonical parsed [] = Unit
AllCanonical parsed (k ∷ ks) = (parsed k ≡ some k) × AllCanonical parsed ks

to_set-AllCanonical :
    (parsed : ℕ → Option ℕ) (ks : List ℕ) → AllCanonical parsed ks → AllCanonical parsed (to_set ks)
unfolding to_set
to_set-AllCanonical parsed [] all = tt
to_set-AllCanonical parsed (k ∷ ks) (own, all) = elim (Bool-cases (member k ks)) [
  | inl twice ↦ rw twice (to_set-AllCanonical parsed ks all)
  | inr once ↦ rw once (own, to_set-AllCanonical parsed ks all)
]

added_once :
    (target : ℕ → Option ℕ) (k x : ℕ) (current : List ℕ) (routes : List (ℕ × Option ℕ))
    → find k (if member x current then routes else register (some x) (target x) routes) ≡ (
        if x == k
        then (if member k current then find k routes else some (target k))
        else find k routes)
unfolding register
added_once target k x current routes = elim (Bool-cases (member x current)) [
  | inl kept ↦ rw kept (elim (Bool-cases (x == k)) [
    | inl same ↦ rw (same, member_same x k current same kept) refl
    | inr other ↦ rw other refl
  ])
  | inr fresh ↦
      rw (fresh, find-store k x (target x) routes)
        (elim (Bool-cases (x == k)) [
          | inl same ↦
              rw (same, member_same x k current same fresh)
                (ap (λ y. some (target y)) ((==_iff x k).0 same))
          | inr other ↦ rw other refl
        ])
]

add_new-find :
    (parsed target : ℕ → Option ℕ) (k : ℕ) (current remote : List ℕ) (routes : List (ℕ × Option ℕ))
    → AllCanonical parsed remote
    → find k (add_new parsed target current remote routes) ≡ (
        if member k remote
        then (if member k current then find k routes else some (target k))
        else find k routes)
unfolding add_new member
add_new-find parsed target k current [] routes all = refl
add_new-find parsed target k current (x ∷ remote) routes (own, all) =
    add_new-find parsed target k current remote
      (if member x current then routes else register (parsed x) (target x) routes) all
    ∙ ap (λ o. if member k remote then (if member k current then o else some (target k)) else o)
        (ap (λ o. find k (if member x current then routes else register o (target x) routes)) own
          ∙ added_once target k x current routes)
    ∙ either_one (member k current) (member k remote) (x == k) (find k routes) (some (target k))
  where
    either_one :
        (c r s : Bool) (o t : Option (Option ℕ))
        → (if r
            then (if c then (if s then (if c then o else t) else o) else t)
            else (if s then (if c then o else t) else o))
          ≡ (if (if s then true else r) then (if c then o else t) else o)
    either_one true true true o t = refl
    either_one true true false o t = refl
    either_one true false true o t = refl
    either_one true false false o t = refl
    either_one false true true o t = refl
    either_one false true false o t = refl
    either_one false false true o t = refl
    either_one false false false o t = refl

target_lem :
    (text : ℕ → List ℕ) (own : List ℕ) (new_destination : ℕ → ℕ) (k : ℕ)
    → some (new_target text own new_destination k)
      ≡ (if has_prefix (text k) own then some none else some (some (new_destination k)))
unfolding new_target
target_lem text own new_destination k = elim (Bool-cases (has_prefix (text k) own)) [
  | inl own_route ↦ rw own_route refl
  | inr other ↦ rw other refl
]

-- After `updateRouter` the client has a route for exactly the addresses that the server sent, if
-- their texts are those that the router prints: those that it had keep their targets, a new one has
-- a new destination, or none where the text of the route begins with the text of the client's own
-- address.
pub update_router-refines :
    (parsed : ℕ → Option ℕ) (text : ℕ → List ℕ) (own : List ℕ) (new_destination : ℕ → ℕ)
    (ips : List ℕ) (routes : List (ℕ × Option ℕ)) (k : ℕ)
    → AllCanonical parsed ips
    → find k (update_router parsed text own new_destination ips routes).0 ≡ (
        if member k ips
        then (if is_some (find k routes)
            then find k routes
            else if has_prefix (text k) own
            then some none
            else some (some (new_destination k)))
        else none)
unfolding update_router
update_router-refines parsed text own new_destination ips routes k canonical =
    let target = new_target text own new_destination in
    let removed = remove_stale (to_set ips) (map_keys routes) (routes, []) in
    add_new-find parsed target k (map_keys routes) (to_set ips) removed.0
      (to_set-AllCanonical parsed ips canonical)
    ∙ ap
        (λ o.
          if member k (to_set ips)
          then (if member k (map_keys routes) then o else some (target k))
          else o)
        (remove_stale-find k (to_set ips) (map_keys routes) (routes, []))
    ∙ ap₂
        (λ (m c : Bool).
          if m
          then (if c
              then (if c then (if m then find k routes else none) else find k routes)
              else some (target k))
          else (if c then (if m then find k routes else none) else find k routes))
        (member-to_set k ips) (member-map_keys k routes)
    ∙ both (member k ips) (find k routes) (some (target k))
    ∙ ap
        (λ t. if member k ips then (if is_some (find k routes) then find k routes else t) else none)
        (target_lem text own new_destination k)
  where
    both :
        (m : Bool) (o t : Option (Option ℕ))
        → (if m
            then (if is_some o then (if is_some o then (if m then o else none) else o) else t)
            else (if is_some o then (if m then o else none) else o))
          ≡ (if m then (if is_some o then o else t) else none)
    both true none t = refl
    both true (some v) t = refl
    both false none t = refl
    both false (some v) t = refl

has_prefix-append : (own rest : List ℕ) → has_prefix (own ++ rest) own ≡ true
unfolding has_prefix
has_prefix-append [] rest = refl
has_prefix-append (c ∷ own) rest =
    let same : (c == c) ≡ true = ground arith in rw (same, has_prefix-append own rest) refl

-- A new route of another client whose text begins with the text of the client's own address, as
-- 10.0.0.10/32 does with 10.0.0.1, gets no destination.
pub update_router_prefix :
    (parsed : ℕ → Option ℕ) (text : ℕ → List ℕ) (own rest : List ℕ) (new_destination : ℕ → ℕ)
    (ips : List ℕ) (routes : List (ℕ × Option ℕ)) (k : ℕ)
    → AllCanonical parsed ips
    → text k ≡ own ++ rest
    → member k ips ≡ true
    → find k routes ≡ none
    → find k (update_router parsed text own new_destination ips routes).0 ≡ some none
update_router_prefix parsed text own rest new_destination ips routes k canonical extends listed
      fresh =
    let prefix : has_prefix (text k) own ≡ true =
      ap (λ t. has_prefix t own) extends ∙ has_prefix-append own rest in
    update_router-refines parsed text own new_destination ips routes k canonical
    ∙ ap₂
        (λ (m : Bool) (o : Option (Option ℕ)).
          if m
          then (if is_some o
              then o
              else if has_prefix (text k) own
              then some none
              else some (some (new_destination k)))
          else none)
        listed fresh
    ∙ ap (λ b. if b then some none else some (some (new_destination k))) prefix
