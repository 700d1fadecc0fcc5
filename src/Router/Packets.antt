-- ===== src/Router/Packets.antt =====
-- common/router/router.go: `Route` and `RouteBatch` on arbitrary packets.
use go_vnet.Base.{
  ℕ, ◌+◌, ◌*◌, ◌/◌, ◌%◌, ◌^◌, ◌≤◌, ◌≡◌, refl, Bool, true, false, Option, none, some, List, [], ◌∷◌,
  arith, length, take, drop, length-take, length-drop, ltb, ◌==◌, if◌then◌else◌, ◌>>=◌, ◌||◌,
}
use go_vnet.Router.{Router, lookup_ipv4, lookup_ipv6, route}
use go_vnet.Router.Table.{path, entry}
use go_vnet.Router.Lookup.{IsLongestMatch, lookup_ipv4-IsLongestMatch, lookup_ipv6-IsLongestMatch}

length-slice : (k n : ℕ) (buf : List ℕ) → k + n ≤ length buf → length (take n (drop k buf)) ≡ n
length-slice k n buf h = omega (arith, length-take n (drop k buf), length-drop k buf)

module _ {ℓ} {V : Type ℓ} where
  -- `RouteBatch` walks down from the last packet. It returns the targets, `none` for nil, and the
  -- number of packets that have a route.
  unfoldable pub route_batch : Router V → List (List ℕ) → Option (List (Option V) × ℕ)
  route_batch r [] = some ([], 0)
  route_batch r (packet ∷ packets) = do
    done ← route_batch r packets
    target ← route r packet
    some (elim target [ some v ↦ (some v ∷ done.0, done.1 + 1) | none ↦ (none ∷ done.0, done.1) ])

  -- A lookup that does not panic.
  abbrev Answers : Option (Option V) → Type ℓ
  Answers m = (o : Option V) × (m ≡ some o)

  lookup_ipv4-Answers : (r : Router V) (ip : List ℕ) → length ip ≡ 4 → Answers (lookup_ipv4 r ip)
  lookup_ipv4-Answers r ip h = let m = lookup_ipv4-IsLongestMatch r ip h in (m.1, m.4)

  lookup_ipv6-Answers : (r : Router V) (ip : List ℕ) → length ip ≡ 16 → Answers (lookup_ipv6 r ip)
  lookup_ipv6-Answers r ip h = let m = lookup_ipv6-IsLongestMatch r ip h in (m.1, m.4)

  if_Answers :
      (b : Bool) {m n : Option (Option V)}
      → (b ≡ true → Answers m)
      → (b ≡ false → Answers n)
      → Answers (if b then m else n)
  if_Answers true yes_case no_case = yes_case refl
  if_Answers false yes_case no_case = no_case refl

  -- No sequence of bytes makes `Route` panic: it always answers with a target or a miss.
  route_total : (r : Router V) (buf : List ℕ) → Answers (route r buf)
  unfolding route
  route_total r [] = (none, refl)
  route_total r (first ∷ rest) =
      if_Answers (ltb (length buf) 20) (λ _. miss)
        λ long.
          if_Answers (version == 4)
            (λ _.
              if_Answers (ltb ihl 5 || ltb (length buf) (ihl * 4 % 256)) (λ _. miss)
                λ _. lookup_ipv4-Answers r _ (length-slice 16 4 buf (ground (arith, long))))
            λ _.
              if_Answers (version == 6)
                (λ _.
                  if_Answers (ltb (length buf) 40) (λ _. miss)
                    λ enough.
                      lookup_ipv6-Answers r _ (length-slice 24 16 buf (ground (arith, enough))))
                λ _. miss
    where
      buf : List ℕ
      buf = first ∷ rest

      version : ℕ
      version = first / 2 ^ 4 % 16

      ihl : ℕ
      ihl = first % 16

      miss : Answers (some none)
      miss = (none, refl)

  -- The number of targets that are not nil.
  abbrev pub count_routed : List (Option V) → ℕ
  count_routed [] = 0
  count_routed (some v ∷ ts) = count_routed ts + 1
  count_routed (none ∷ ts) = count_routed ts

  -- Each target is what `Route` answers for the packet at its place.
  abbrev pub Routed : Router V → List (List ℕ) → List (Option V) → Type ℓ
  Routed r [] [] = Unit
  Routed r (packet ∷ packets) (t ∷ ts) = (route r packet ≡ some t) × Routed r packets ts
  Routed r _ _ = Unit → ⊥

  -- `RouteBatch` never panics; it writes for every packet what `Route` answers for it alone, and
  -- returns the number of packets that have a route.
  pub route_batch-Routed :
      (r : Router V) (packets : List (List ℕ))
      → (ts : List (Option V)) × (route_batch r packets ≡ some (ts, count_routed ts))
        × Routed r packets ts
  unfolding route_batch
  route_batch-Routed r [] = ([], refl, tt)
  route_batch-Routed r (packet ∷ packets) =
      let (ts, e, all) = route_batch-Routed r packets in
      let (o, answer) = route_total r packet in
      (o ∷ ts, rw (e, answer) (counted o ts), (answer, all))
    where
      counted :
          (o : Option V) (ts : List (Option V))
          → ◌≡◌ {A = Option (List (Option V) × ℕ)}
              (some (elim o [
                | some v ↦ (some v ∷ ts, count_routed ts + 1)
                | none ↦ (none ∷ ts, count_routed ts)
              ]))
              (some (o ∷ ts, count_routed (o ∷ ts)))
      counted (some v) ts = refl
      counted none ts = refl

  -- An IPv4 packet of at least 20 bytes, with a header length of 5 or more words that the packet
  -- holds, goes where the longest registered prefix of bytes 16 to 19 leads.
  pub route_ipv4 :
      (r : Router V) (first : ℕ) (rest : List ℕ)
      → first / 16 % 16 ≡ 4
      → 5 ≤ first % 16
      → 20 ≤ length (first ∷ rest)
      → first % 16 * 4 ≤ length (first ∷ rest)
      → (bs : List Bool) × (o : Option V) × (path 32 0 (take 4 (drop 16 (first ∷ rest))) ≡ some bs)
        × (route r (first ∷ rest) ≡ some o)
        × IsLongestMatch (entry r.v4) bs o
  unfolding route
  route_ipv4 r first rest version words long held =
      let m =
        lookup_ipv4-IsLongestMatch r (take 4 (drop 16 (first ∷ rest)))
          (length-slice 16 4 (first ∷ rest) (omega arith)) in
      let enough : ltb (length (first ∷ rest)) 20 ≡ false = ground arith in
      let is_4 : (first / 2 ^ 4 % 16 == 4) ≡ true = ground arith in
      let sound : (ltb (first % 16) 5 || ltb (length (first ∷ rest)) (first % 16 * 4 % 256))
          ≡ false =
        ground arith in
      (m.0, m.1, m.2, rw (enough, is_4, sound) m.4, m.5)
