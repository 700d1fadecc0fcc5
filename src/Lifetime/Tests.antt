-- ===== src/Lifetime/Tests.antt =====
-- A client that fails once and connects twice.
use go_vnet.Base.{◌≡◌, refl, true, none, List, [], ◌∷◌}
use go_vnet.Lifetime.{
  Outcome, new_client, setup_failed, connected, registered, run, set_up, with_device, with_hub,
  connect_p2p, release_all, background_try_dial, dial_round, open_slot, close_slot,
}
use go_vnet.Lifetime.Balance.{AllShut, reconnects, reconnects-release_all}

abbrev tries : List Outcome
tries = connected (registered true) ∷ setup_failed ∷ connected (registered true) ∷ []

reconnects-release_all_example :
    AllShut (release_all (reconnects tries new_client))
    × ((release_all (reconnects tries new_client)).encryptors ≡ 2)
    × ((release_all (reconnects tries new_client)).dial_loops ≡ 2)
reconnects-release_all_example = reconnects-release_all tries

-- A loop that dials peers panics while the client has no hub, as it has not between `ReleaseAll`
-- and the next hub.
panics_between :
    (dial_round (release_all (run (connected (registered true)) new_client)) ≡ none)
    × (dial_round (set_up (release_all (run (connected (registered true)) new_client))) ≡ none)
unfolding dial_round release_all run set_up with_device with_hub connect_p2p close_slot open_slot
    background_try_dial
panics_between = (refl, refl)
