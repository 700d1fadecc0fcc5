-- ===== src/Router/Updates.antt =====
-- common/router/router.go: what `Register` and `UnRegister` do to the routing table, through the
-- parsers of package net.
use go_vnet.Base.{
  ℕ, zero, suc, ◌∙◌, sym, Bool-cases, inl, inr, ◌+◌, ◌≤◌, ◌≡◌, refl, ap, or_else, Bool, true, false,
  Option, none, some, List, [], ◌∷◌, arith, length, if◌then◌else◌,
}
use go_vnet.Router.{
  TrieNode, Router, IpNet, Text, to4, to16, is_nil, insert_ipv4, remove_ipv4, insert_ipv6,
  remove_ipv6, register, unregister, route_string,
}
use go_vnet.Router.Table.{
  path, path-suc, bits_eq, entry, insert_at, remove_at, insert_loop-path, remove_loop-path,
  entry-insert_at, entry-remove_at,
}
use go_vnet.Router.Lookup.{path_total, longest, lookup_ipv4_lem}
use mathlib.Core.Path.{ap₂, fun_ext}

-- The address family of a parsed prefix, and the bytes that the router works on.
pub data Family : Type 0 where
  inet inet6 : Family

abbrev pub bytes_of : Family → ℕ
bytes_of inet = 4
bytes_of inet6 = 16

-- The prefix belongs to the family: `To4`, or else `To16`, gives the bytes `ip`, and the mask is no
-- longer than they are.
abbrev pub Belongs : IpNet → Family → List ℕ → Type 0
Belongs net inet ip = (to4 net.ip ≡ some ip) × (length ip ≡ 4) × (net.ones ≤ 32)
Belongs net inet6 ip =
    (to4 net.ip ≡ none) × (to16 net.ip ≡ some ip) × (length ip ≡ 16) × (net.ones ≤ 128)

module _ {ℓ} {V : Type ℓ} where
  abbrev pub tree : Family → Router V → TrieNode V
  tree inet r = r.v4
  tree inet6 r = r.v6

  abbrev pub other_tree : Family → Router V → TrieNode V
  other_tree inet r = r.v6
  other_tree inet6 r = r.v4

  module _ (parse_cidr : Text → Option IpNet) where
    -- Registering a prefix that parses, with a mask no longer than its address, into a router whose
    -- roots are nodes, succeeds. Afterwards the
    -- prefix leads to the new target, every other prefix to what it led to before, and the other
    -- family's tree is the same.
    pub register-entry :
        (r : Router V) (addr : Text) (v : V) (net : IpNet) (f : Family) (ip : List ℕ)
        → parse_cidr addr ≡ some net
        → Belongs net f ip
        → is_nil (tree f r) ≡ false
        → (p : List Bool) × (r' : Router V) × (path net.ones 0 ip ≡ some p)
          × (register parse_cidr r addr v ≡ some r')
          × ((q : List Bool)
              → entry (tree f r') q ≡ (if bits_eq p q then some v else entry (tree f r) q))
          × (other_tree f r' ≡ other_tree f r)
    unfolding register insert_ipv4 insert_ipv6
    register-entry r addr v net inet ip parsed (e4, len, fits) root =
        let (p, e, _) = path_total net.ones 0 ip (omega arith) in
        (
          p,
          record r { v4 = insert_at p v r.v4 },
          e,
          ground (arith, insert_loop-path net.ones 0 ip v r.v4 e),
          (λ q. entry-insert_at p v r.v4 q root),
          refl,
        )
    register-entry r addr v net inet6 ip parsed (e4, e16, len, fits) root =
        let (p, e, _) = path_total net.ones 0 ip (omega arith) in
        (
          p,
          record r { v6 = insert_at p v r.v6 },
          e,
          ground (arith, insert_loop-path net.ones 0 ip v r.v6 e),
          (λ q. entry-insert_at p v r.v6 q root),
          refl,
        )

    -- Unregistering a prefix that parses, with a mask no longer than its address, succeeds: the
    -- prefix leads nowhere, every other prefix where it led before, and the other family's tree is
    -- the same.
    pub unregister-entry :
        (r : Router V) (addr : Text) (net : IpNet) (f : Family) (ip : List ℕ)
        → parse_cidr addr ≡ some net
        → Belongs net f ip
        → (p : List Bool) × (r' : Router V) × (path net.ones 0 ip ≡ some p)
          × (unregister parse_cidr r addr ≡ some r')
          × ((q : List Bool)
              → entry (tree f r') q ≡ (if bits_eq p q then none else entry (tree f r) q))
          × (other_tree f r' ≡ other_tree f r)
    unfolding unregister remove_ipv4 remove_ipv6
    unregister-entry r addr net inet ip parsed (e4, len, fits) =
        let (p, e, _) = path_total net.ones 0 ip (omega arith) in
        (
          p,
          record r { v4 = remove_at p r.v4 },
          e,
          ground (arith, remove_loop-path net.ones 0 ip r.v4 e),
          entry-remove_at p r.v4,
          refl,
        )
    unregister-entry r addr net inet6 ip parsed (e4, e16, len, fits) =
        let (p, e, _) = path_total net.ones 0 ip (omega arith) in
        (
          p,
          record r { v6 = remove_at p r.v6 },
          e,
          ground (arith, remove_loop-path net.ones 0 ip r.v6 e),
          entry-remove_at p r.v6,
          refl,
        )

module _ {ℓ} {V : Type ℓ} where
  longest_whole :
      (f : List Bool → Option V) (bs : List Bool) {v : V} → f bs ≡ some v → longest f bs ≡ some v
  unfolding longest
  longest_whole f [] e = e
  longest_whole f (b ∷ bs) e = rw (longest_whole (λ q. f (b ∷ q)) bs e) refl

  -- Two tables that differ at most at `p` agree on every other list of that length.
  longest_elsewhere :
      (f g : List Bool → Option V) (p bs : List Bool)
      → length p ≡ length bs
      → bits_eq p bs ≡ false
      → ((q : List Bool) → bits_eq p q ≡ false → f q ≡ g q)
      → longest f bs ≡ longest g bs
  unfolding longest
  longest_elsewhere f g p [] len ne same = same [] ne
  longest_elsewhere f g [] (b ∷ bs) len ne same = absurd (omega arith)
  longest_elsewhere f g (true ∷ p) (true ∷ bs) len ne same =
      ap₂ or_else
        (longest_elsewhere (λ q. f (true ∷ q)) (λ q. g (true ∷ q)) p bs (omega arith) ne
          (λ q. same (true ∷ q)))
        (same [] refl)
  longest_elsewhere f g (false ∷ p) (false ∷ bs) len ne same =
      ap₂ or_else
        (longest_elsewhere (λ q. f (false ∷ q)) (λ q. g (false ∷ q)) p bs (omega arith) ne
          (λ q. same (false ∷ q)))
        (same [] refl)
  longest_elsewhere f g (true ∷ p) (false ∷ bs) len ne same =
      ap₂ or_else (ap (λ h. longest h bs) (fun_ext (λ q. same (false ∷ q) refl))) (same [] refl)
  longest_elsewhere f g (false ∷ p) (true ∷ bs) len ne same =
      ap₂ or_else (ap (λ h. longest h bs) (fun_ext (λ q. same (true ∷ q) refl))) (same [] refl)

  host_answer :
      (v : V) (g f : List Bool → Option V) (bs cs : List Bool)
      → length bs ≡ length cs
      → ((q : List Bool) → g q ≡ (if bits_eq bs q then some v else f q))
      → longest g cs ≡ (if bits_eq bs cs then some v else longest f cs)
  host_answer v g f bs cs len table = elim (Bool-cases (bits_eq bs cs)) [
    | inl same ↦ rw same (longest_whole g cs (table cs ∙ (rw same)))
    | inr differs ↦ rw differs (longest_elsewhere g f bs cs len differs (λ q e. table q ∙ (rw e)))
  ]

length-path : (n i : ℕ) (ip : List ℕ) {bs : List Bool} → path n i ip ≡ some bs → length bs ≡ n
unfolding path
length-path zero i ip e = ground (arith, e)
length-path (suc n) i ip e =
    let (b, rest, eb, es, ep) = path-suc n i ip e in rw ep (ap suc (length-path n (i + 1) ip es))

module _ {ℓ} {V : Type ℓ} (parse_cidr : Text → Option IpNet)
    (parse_ip : Text → Option (List ℕ)) where
  -- Once a host route, a 4-byte address with a mask of 32 bits, is registered, `RouteString` of
  -- that address gives its target, whatever shorter prefixes there are. For an address that differs
  -- in its bits the answer is the same as before.
  pub register-route_string :
      (r : Router V) (addr : Text) (v : V) (net : IpNet) (ip : List ℕ) (dst : Text)
      (there other : List ℕ) (bs cs : List Bool)
      → parse_cidr addr ≡ some net
      → Belongs net inet ip
      → net.ones ≡ 32
      → is_nil r.v4 ≡ false
      → path 32 0 ip ≡ some bs
      → parse_ip dst ≡ some there
      → to4 there ≡ some other
      → length other ≡ 4
      → path 32 0 other ≡ some cs
      → (r' : Router V) × (register parse_cidr r addr v ≡ some r')
        × (route_string parse_ip r' dst
            ≡ (if bits_eq bs cs then some (some v) else route_string parse_ip r dst))
  unfolding route_string
  register-route_string r addr v net ip dst there other bs cs parsed belongs host root eb ed e4 len
        ec =
      let (p, r', ep, er, table, same) =
        register-entry parse_cidr r addr v net inet ip parsed belongs root in
      let ep' : path 32 0 ip ≡ some p = cc in
      let p_is_bs : p ≡ bs = cc in
      let answer =
        host_answer v (entry r'.v4) (entry r.v4) bs cs
          (length-path 32 0 ip eb ∙ sym (length-path 32 0 other ec)) (rw p_is_bs at table) in
      (
        r',
        er,
        ground (
          arith,
          ed,
          e4,
          lookup_ipv4_lem r' other len ec,
          lookup_ipv4_lem r other len ec,
          answer,
        ),
      )
