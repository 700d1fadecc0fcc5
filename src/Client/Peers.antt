-- ===== src/Client/Peers.antt =====
-- The peers of the client after `syncP2PPeerMapping`, vnet/client/sync_router.go.
use go_vnet.Base.{
  ℕ, ◌≡◌, ◌≢◌, refl, ap, ◌∙◌, true, false, not, ◌&&◌, Option, none, some, List, [], ◌∷◌, arith,
  ◌==◌, if◌then◌else◌,
}
use go_vnet.Client.{member, map_keys, sync_peers}

-- the mapping has no address twice, as it is a map of Go
abbrev pub IsUnique : List (ℕ × Option ℕ) → Type 0
IsUnique [] = Unit
IsUnique ((k, v) ∷ mapping) = (member k (map_keys mapping) ≡ false) × IsUnique mapping

-- what an entry of the mapping makes of a known peer: the client itself stays, any other becomes
-- the peer of the entry
abbrev pub updated : ℕ → Option (Option ℕ) → Option ℕ → Option ℕ
updated host none known = known
updated host (some none) known = known
updated host (some (some id)) none = some id
updated host (some (some id)) (some known) = if known == host then some host else some id

-- If the mapping cannot be fetched, the version advances all the same: as long as the server stays
-- at that version, no further call fetches it, and the peers stay as they are, whatever there would
-- be to fetch.
pub sync_peers_lost :
    (own host latest version : ℕ) (later : Option (List (ℕ × Option ℕ))) (peers : List (ℕ × ℕ))
    → version ≢ latest
    → let failed = sync_peers true own host latest none (peers, version) in
      (failed ≡ (peers, latest)) × (sync_peers true own host latest later failed ≡ (peers, latest))
unfolding sync_peers
sync_peers_lost own host latest version later peers ne =
    let other : (version == latest) ≡ false = ground (arith, ne) in
    let same : (latest == latest) ≡ true = ground arith in
    let failed : sync_peers true own host latest none (peers, version) ≡ (peers, latest) =
      ap (λ b. if not b && true then (peers, latest) else (peers, version)) other in
    (failed, ap (sync_peers true own host latest later) failed ∙ again same later)
  where
    again :
        (latest == latest) ≡ true
        → (later : Option (List (ℕ × Option ℕ)))
        → sync_peers true own host latest later (peers, latest) ≡ (peers, latest)
    again same none = rw same refl
    again same (some mapping) = rw same refl
