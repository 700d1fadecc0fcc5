-- ===== src/Hub/Delivery.antt =====
-- Where the packets of an event go in vnet/client/hub/hub_tx.go, `Hub.txLoop`, after
-- `Router.RouteBatch`.
use go_vnet.Hub.Flushing.{send_batches-delivered}
use mathlib.Core.Option.{some-injective}
use go_vnet.Base.{
  ℕ, zero, suc, ◌≤◌, ◌<◌, ◌≡◌, ◌≢◌, refl, sym, ap, ◌∙◌, inl, inr, Bool, true, false, Option, none,
  some, List, [], ◌∷◌, ◌++◌, arith, length, ◌==◌, ==_iff, if◌then◌else◌, Bool-cases,
}
use go_vnet.Router.{Router}
use go_vnet.Router.Packets.{route_batch, count_routed, route_batch-Routed}
use go_vnet.Hub.{push, valid_routes, all_same, dispatch_routes, dispatch}
use go_vnet.Hub.Batches.{delivered, routed_to}

module _ {P : Type 0} where
  -- the packets whose target is the destination
  abbrev pub sent_to : ℕ → List (Option (Option ℕ)) → List P → List P
  sent_to d [] packets = []
  sent_to d (t ∷ targets) [] = []
  sent_to d (none ∷ targets) (p ∷ packets) = sent_to d targets packets
  sent_to d (some none ∷ targets) (p ∷ packets) = sent_to d targets packets
  sent_to d (some (some dst) ∷ targets) (p ∷ packets) =
      (if dst == d then p ∷ [] else []) ++ sent_to d targets packets

  none_left :
      (d : ℕ) (targets : List (Option (Option ℕ))) (packets : List P)
      → count_routed targets ≤ 0
      → [] ≡ sent_to d targets packets
  none_left d [] packets h = refl
  none_left d (t ∷ targets) [] h = refl
  none_left d (none ∷ targets) (p ∷ packets) h = none_left d targets packets h
  none_left d (some t ∷ targets) (p ∷ packets) h = absurd (omega arith)

  -- The bound of `RouteBatch` on the number of valid routes cuts nothing off.
  valid_routes-sent_to :
      (d count : ℕ) (targets : List (Option (Option ℕ))) (packets : List P)
      → count_routed targets ≤ count
      → routed_to d (valid_routes count targets packets) ≡ sent_to d targets packets
  unfolding valid_routes
  valid_routes-sent_to d zero [] packets h = refl
  valid_routes-sent_to d zero (t ∷ targets) [] h = refl
  valid_routes-sent_to d zero (none ∷ targets) (p ∷ packets) h = none_left d targets packets h
  valid_routes-sent_to d zero (some t ∷ targets) (p ∷ packets) h = absurd (omega arith)
  valid_routes-sent_to d (suc count) [] packets h = refl
  valid_routes-sent_to d (suc count) (t ∷ targets) [] h = refl
  valid_routes-sent_to d (suc count) (none ∷ targets) (p ∷ packets) h =
      valid_routes-sent_to d (suc count) targets packets h
  valid_routes-sent_to d (suc count) (some none ∷ targets) (p ∷ packets) h =
      valid_routes-sent_to d (suc count) targets packets (omega arith)
  valid_routes-sent_to d (suc count) (some (some dst) ∷ targets) (p ∷ packets) h =
      ap (λ l. (if dst == d then p ∷ [] else []) ++ l)
        (valid_routes-sent_to d count targets packets (omega arith))

  all_same-others :
      (d first : ℕ) (routes : List (ℕ × P))
      → all_same first routes ≡ true
      → d ≢ first
      → routed_to d routes ≡ []
  unfolding all_same
  all_same-others d first [] same ne = refl
  all_same-others d first ((dst, p) ∷ routes) same ne = elim (Bool-cases (dst == first)) [
    | inl e ↦
        let here : dst ≡ first = (==_iff dst first).0 e in
        let apart : (dst == d) ≡ false = ground (arith, here, ne) in
        rw apart (all_same-others d first routes (same_rest e) ne)
    | inr e ↦ absurd (different e)
  ]
    where
      same_rest : (dst == first) ≡ true → all_same first routes ≡ true
      same_rest e = sym (ap (λ b. if b then all_same first routes else false) e) ∙ same

      different : (dst == first) ≡ false → ⊥
      different e = ground (arith, e, same)

  others-all_same :
      (first : ℕ) (routes : List (ℕ × P))
      → ((d : ℕ) → d ≢ first → routed_to d routes ≡ [])
      → all_same first routes ≡ true
  unfolding all_same
  others-all_same first [] only = refl
  others-all_same first ((dst, p) ∷ routes) only = elim (Bool-cases (dst == first)) [
    | inl e ↦ rw e (others-all_same first routes λ d ne. rest d ne e)
    | inr e ↦ absurd (alone e)
  ]
    where
      rest : (d : ℕ) → d ≢ first → (dst == first) ≡ true → routed_to d routes ≡ []
      rest d ne e =
          let here : dst ≡ first = (==_iff dst first).0 e in
          let apart : (dst == d) ≡ false = ground (arith, here, ne) in
          sym (ap (λ b. (if b then p ∷ [] else []) ++ routed_to d routes) apart) ∙ only d ne

      alone : (dst == first) ≡ false → ⊥
      alone e =
          let ne : dst ≢ first = λ q. ground (arith, q, e) in
          let own : (dst == dst) ≡ true = ground arith in
          let gone : routed_to dst ((dst, p) ∷ routes) ≡ [] = only dst ne in
          omega (
            arith,
            ap length
                (sym (ap (λ b. (if b then p ∷ [] else []) ++ routed_to dst routes) own) ∙ gone),
          )

  dispatch_routes-delivered :
      (size d d1 d2 : ℕ) (packets : List P) (routes : List (ℕ × P))
      → 0 < size
      → d1 ≢ d2
      → 0 < length (routed_to d1 routes)
      → 0 < length (routed_to d2 routes)
      → delivered d (dispatch_routes size packets routes) ≡ routed_to d routes
  unfolding dispatch_routes
  dispatch_routes-delivered size d d1 d2 packets [] pos ne one two =
      send_batches-delivered size d packets [] pos
  dispatch_routes-delivered size d d1 d2 packets ((dst, p) ∷ routes) pos ne one two =
      elim (Bool-cases (all_same dst routes)) [
        | inr e ↦ rw e (send_batches-delivered size d packets ((dst, p) ∷ routes) pos)
        | inl e ↦ elim (Bool-cases (dst == d1)) [
          | inr away ↦ absurd (missing d1 e away one)
          | inl here ↦ absurd (missing d2 e (elsewhere ((==_iff dst d1).0 here)) two)
        ]
      ]
    where
      elsewhere : dst ≡ d1 → (dst == d2) ≡ false
      elsewhere e = ground (arith, e, ne)

      missing :
          (x : ℕ)
          → all_same dst routes ≡ true
          → (dst == x) ≡ false
          → 0 < length (routed_to x ((dst, p) ∷ routes))
          → ⊥
      missing x same away some_packet =
          let apart : x ≢ dst = λ q. ground (arith, q, away) in
          let gone = all_same-others x dst routes same apart in
          omega (
            arith,
            some_packet,
            ap (λ (b : Bool). length ((if b then p ∷ [] else []) ++ routed_to x routes)) away,
            ap length gone,
          )

  dispatch_routes-single :
      (size d : ℕ) (packets : List P) (routes : List (ℕ × P))
      → 0 < length (routed_to d routes)
      → ((e : ℕ) → e ≢ d → routed_to e routes ≡ [])
      → dispatch_routes size packets routes ≡ push d packets ∷ []
  unfolding dispatch_routes
  dispatch_routes-single size d packets [] some_packet only = absurd (omega arith)
  dispatch_routes-single size d packets ((dst, p) ∷ routes) some_packet only =
      elim (Bool-cases (dst == d)) [
        | inl e ↦
            let first : dst ≡ d = (==_iff dst d).0 e in
            let same =
              others-all_same dst routes λ x ne. rest x (λ q. ne (q ∙ sym first)) λ q. ne (sym q) in
            rw same (ap (λ x. push x packets ∷ []) first)
        | inr e ↦ absurd (alone e)
      ]
    where
      rest : (x : ℕ) → x ≢ d → dst ≢ x → routed_to x routes ≡ []
      rest x ne apart =
          let away : (dst == x) ≡ false = ground (arith, apart) in
          sym (ap (λ b. (if b then p ∷ [] else []) ++ routed_to x routes) away) ∙ only x ne

      alone : (dst == d) ≡ false → ⊥
      alone e =
          let ne : dst ≢ d = λ q. ground (arith, q, e) in
          let own : (dst == dst) ≡ true = ground arith in
          omega (
            arith,
            ap length (
                sym (ap (λ b. (if b then p ∷ [] else []) ++ routed_to dst routes) own)
                ∙ only dst ne),
          )

-- what `RouteBatch` counts
counted :
    (r : Router (Option ℕ)) (packets : List (List ℕ)) (targets : List (Option (Option ℕ)))
    (count : ℕ)
    → route_batch r packets ≡ some (targets, count)
    → count_routed targets ≤ count
counted r packets targets count e =
    let (ts, answer, _) = route_batch-Routed r packets in
    let same : (targets, count) ≡ (ts, count_routed ts) = some-injective _ _ (sym e ∙ answer) in
    let here : targets ≡ ts = ap (λ x. x.0) same in
    let number : count ≡ count_routed ts = ap (λ x. x.1) same in
    omega (arith, number, ap count_routed here)

-- If the packets of an event have at least two different destinations, then each destination gets
-- exactly the packets that `Router.RouteBatch` gives it, each once and in their order, whatever the
-- size of the batches; packets without a route, and those for the client itself, go nowhere.
pub dispatch-delivered :
    (size d d1 d2 count : ℕ) (r : Router (Option ℕ)) (packets : List (List ℕ))
    (targets : List (Option (Option ℕ)))
    → 0 < size
    → route_batch r packets ≡ some (targets, count)
    → d1 ≢ d2
    → 0 < length (sent_to d1 targets packets)
    → 0 < length (sent_to d2 targets packets)
    → delivered d (dispatch size targets count packets) ≡ sent_to d targets packets
unfolding dispatch
dispatch-delivered size d d1 d2 count r packets targets pos e ne one two =
    let kept =
      λ (x : ℕ). valid_routes-sent_to x count targets packets (counted r packets targets count e) in
    dispatch_routes-delivered size d d1 d2 packets (valid_routes count targets packets) pos ne
      (omega (arith, one, ap length (kept d1))) (omega (arith, two, ap length (kept d2)))
    ∙ kept d

-- If all packets of an event that have a destination have the same one, and there is such a packet,
-- the whole event is pushed to it: also the packets that have no route, and those for the client
-- itself.
pub dispatch-single :
    (size d count : ℕ) (r : Router (Option ℕ)) (packets : List (List ℕ))
    (targets : List (Option (Option ℕ)))
    → route_batch r packets ≡ some (targets, count)
    → 0 < length (sent_to d targets packets)
    → ((e : ℕ) → e ≢ d → sent_to e targets packets ≡ [])
    → dispatch size targets count packets ≡ push d packets ∷ []
unfolding dispatch
dispatch-single size d count r packets targets e some_packet only =
    let kept =
      λ (x : ℕ). valid_routes-sent_to x count targets packets (counted r packets targets count e) in
    dispatch_routes-single size d packets (valid_routes count targets packets)
      (omega (arith, some_packet, ap length (kept d))) (λ x ne. kept x ∙ only x ne)
