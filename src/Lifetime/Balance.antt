-- ===== src/Lifetime/Balance.antt =====
-- vnet/client/client.go: what is opened is closed.
use go_vnet.Base.{ℕ, suc, ◌+◌, ◌≡◌, refl, true, false, List, [], ◌∷◌, arith, if◌then◌else◌}
use go_vnet.Lifetime.{
  Slot, open_slot, close_slot, Client, new_client, P2p, p2p_off, no_host, not_registered,
  registered, Outcome, unsupported_type, setup_failed, handshake_failed, device_failed,
  device_not_up, key_refused, connected, background_try_dial, connect_p2p, set_up, with_device,
  with_hub, run, release_all, reconnect,
}

-- what is open is held
pub record IsBalanced (s : Slot) : Type 0 where
  pub open_held : s.opened ≡ s.closed + (if s.held then 1 else 0)

-- nothing is open
pub record IsShut (s : Slot) : Type 0 where
  pub not_held : s.held ≡ false
  pub all_closed : s.opened ≡ s.closed

pub record AllBalanced (c : Client) : Type 0 where
  pub hub_balanced : IsBalanced c.hub
  pub inner_balanced : IsBalanced c.inner
  pub dev_balanced : IsBalanced c.dev
  pub host_balanced : IsBalanced c.host
  pub manager_balanced : IsBalanced c.manager

pub record AllShut (c : Client) : Type 0 where
  pub hub_shut : IsShut c.hub
  pub inner_shut : IsShut c.inner
  pub dev_shut : IsShut c.dev
  pub host_shut : IsShut c.host
  pub manager_shut : IsShut c.manager

close_slot-IsShut : (s : Slot) → IsBalanced s → IsShut (close_slot s)
unfolding close_slot
close_slot-IsShut s b = ground (arith, b.open_held)

open_slot-IsBalanced : (s : Slot) → IsShut s → IsBalanced (open_slot s)
unfolding open_slot
open_slot-IsBalanced s shut = record { open_held = omega (arith, shut.all_closed) }

still : (s : Slot) → IsShut s → IsBalanced s
still s shut = record { open_held = ground (arith, shut.not_held, shut.all_closed) }

release_all-AllShut : (c : Client) → AllBalanced c → AllShut (release_all c)
unfolding release_all
release_all-AllShut c b = record {
  hub_shut = close_slot-IsShut c.hub b.hub_balanced;
  inner_shut = close_slot-IsShut c.inner b.inner_balanced;
  dev_shut = close_slot-IsShut c.dev b.dev_balanced;
  host_shut = close_slot-IsShut c.host b.host_balanced;
  manager_shut = close_slot-IsShut c.manager b.manager_balanced;
}

-- the host, which is opened last
connected-AllBalanced :
    (p : P2p) (c : Client)
    → IsBalanced c.hub × IsBalanced c.inner × IsBalanced c.dev × IsBalanced c.manager
    → IsShut c.host
    → AllBalanced (connect_p2p p c)
unfolding connect_p2p background_try_dial
connected-AllBalanced p2p_off c (h, i, d, m) o = record {
  hub_balanced = h;
  inner_balanced = i;
  dev_balanced = d;
  host_balanced = still c.host o;
  manager_balanced = m;
}
connected-AllBalanced no_host c (h, i, d, m) o = record {
  hub_balanced = h;
  inner_balanced = i;
  dev_balanced = d;
  host_balanced = still c.host o;
  manager_balanced = m;
}
connected-AllBalanced not_registered c (h, i, d, m) o = record {
  hub_balanced = h;
  inner_balanced = i;
  dev_balanced = d;
  host_balanced = open_slot-IsBalanced c.host o;
  manager_balanced = m;
}
connected-AllBalanced (registered false) c (h, i, d, m) o = record {
  hub_balanced = h;
  inner_balanced = i;
  dev_balanced = d;
  host_balanced = open_slot-IsBalanced c.host o;
  manager_balanced = m;
}
connected-AllBalanced (registered true) c (h, i, d, m) o = record {
  hub_balanced = h;
  inner_balanced = i;
  dev_balanced = d;
  host_balanced = open_slot-IsBalanced c.host o;
  manager_balanced = m;
}

still_balanced : (c : Client) → AllShut c → AllBalanced c
still_balanced c s = record {
  hub_balanced = still c.hub s.hub_shut;
  inner_balanced = still c.inner s.inner_shut;
  dev_balanced = still c.dev s.dev_shut;
  host_balanced = still c.host s.host_shut;
  manager_balanced = still c.manager s.manager_shut;
}

set_up-AllBalanced : (c : Client) → AllShut c → AllBalanced (set_up c)
unfolding set_up
set_up-AllBalanced c s = record {
  hub_balanced = still c.hub s.hub_shut;
  inner_balanced = open_slot-IsBalanced c.inner s.inner_shut;
  dev_balanced = still c.dev s.dev_shut;
  host_balanced = still c.host s.host_shut;
  manager_balanced = still c.manager s.manager_shut;
}

with_device-AllBalanced : (c : Client) → AllShut c → AllBalanced (with_device (set_up c))
unfolding with_device set_up
with_device-AllBalanced c s = record {
  hub_balanced = still c.hub s.hub_shut;
  inner_balanced = open_slot-IsBalanced c.inner s.inner_shut;
  dev_balanced = open_slot-IsBalanced c.dev s.dev_shut;
  host_balanced = still c.host s.host_shut;
  manager_balanced = still c.manager s.manager_shut;
}

same_slots : (c : Client) → AllShut c → AllShut (record c { has_ctx = true })
same_slots c s = record {
  hub_shut = s.hub_shut;
  inner_shut = s.inner_shut;
  dev_shut = s.dev_shut;
  host_shut = s.host_shut;
  manager_shut = s.manager_shut;
}

with_session : (c : Client) → AllBalanced c → AllBalanced (record c { has_session = true })
with_session c b = record {
  hub_balanced = b.hub_balanced;
  inner_balanced = b.inner_balanced;
  dev_balanced = b.dev_balanced;
  host_balanced = b.host_balanced;
  manager_balanced = b.manager_balanced;
}

hub_opened : (c : Client) → AllShut c → IsBalanced (with_hub (with_device (set_up c))).hub
unfolding with_hub with_device set_up
hub_opened c s = open_slot-IsBalanced c.hub s.hub_shut

manager_opened : (c : Client) → AllShut c → IsBalanced (with_hub (with_device (set_up c))).manager
unfolding with_hub with_device set_up
manager_opened c s = open_slot-IsBalanced c.manager s.manager_shut

run-AllBalanced : (o : Outcome) (c : Client) → AllShut c → AllBalanced (run o c)
unfolding run with_hub with_device set_up
run-AllBalanced unsupported_type c s = still_balanced (record c { has_ctx = true }) (same_slots c s)
run-AllBalanced setup_failed c s = set_up-AllBalanced c s
run-AllBalanced handshake_failed c s = set_up-AllBalanced c s
run-AllBalanced device_failed c s = with_session (set_up c) (set_up-AllBalanced c s)
run-AllBalanced device_not_up c s = with_device-AllBalanced c s
run-AllBalanced key_refused c s = with_device-AllBalanced c s
run-AllBalanced (connected p) c s =
    connected-AllBalanced p (with_hub (with_device (set_up c)))
      (
        hub_opened c s,
        (with_device-AllBalanced c s).inner_balanced,
        (with_device-AllBalanced c s).dev_balanced,
        manager_opened c s,
      )
      s.host_shut

abbrev pub reconnects : List Outcome → Client → Client
reconnects [] c = c
reconnects (o ∷ outcomes) c = reconnects outcomes (reconnect o c)

abbrev pub connections : List Outcome → ℕ
connections [] = 0
connections (unsupported_type ∷ outcomes) = connections outcomes
connections (setup_failed ∷ outcomes) = connections outcomes
connections (handshake_failed ∷ outcomes) = connections outcomes
connections (device_failed ∷ outcomes) = connections outcomes
connections (device_not_up ∷ outcomes) = connections outcomes
connections (key_refused ∷ outcomes) = connections outcomes
connections (connected p ∷ outcomes) = suc (connections outcomes)

abbrev pub active_dials : List Outcome → ℕ
active_dials [] = 0
active_dials (unsupported_type ∷ outcomes) = active_dials outcomes
active_dials (setup_failed ∷ outcomes) = active_dials outcomes
active_dials (handshake_failed ∷ outcomes) = active_dials outcomes
active_dials (device_failed ∷ outcomes) = active_dials outcomes
active_dials (device_not_up ∷ outcomes) = active_dials outcomes
active_dials (key_refused ∷ outcomes) = active_dials outcomes
active_dials (connected p2p_off ∷ outcomes) = active_dials outcomes
active_dials (connected no_host ∷ outcomes) = active_dials outcomes
active_dials (connected not_registered ∷ outcomes) = active_dials outcomes
active_dials (connected (registered false) ∷ outcomes) = active_dials outcomes
active_dials (connected (registered true) ∷ outcomes) = suc (active_dials outcomes)

reconnects-AllBalanced :
    (outcomes : List Outcome) (c : Client) → AllBalanced c → AllBalanced (reconnects outcomes c)
unfolding reconnect
reconnects-AllBalanced [] c b = b
reconnects-AllBalanced (o ∷ outcomes) c b =
    reconnects-AllBalanced outcomes (run o (release_all c))
      (run-AllBalanced o (release_all c) (release_all-AllShut c b))

one_more :
    (o : Outcome) (c : Client)
    → ((reconnect o c).encryptors ≡ c.encryptors + connections (o ∷ []))
      × ((reconnect o c).dial_loops ≡ c.dial_loops + active_dials (o ∷ []))
unfolding reconnect run release_all set_up with_device with_hub connect_p2p background_try_dial
one_more unsupported_type c = (omega arith, omega arith)
one_more setup_failed c = (omega arith, omega arith)
one_more handshake_failed c = (omega arith, omega arith)
one_more device_failed c = (omega arith, omega arith)
one_more device_not_up c = (omega arith, omega arith)
one_more key_refused c = (omega arith, omega arith)
one_more (connected p2p_off) c = (omega arith, omega arith)
one_more (connected no_host) c = (omega arith, omega arith)
one_more (connected not_registered) c = (omega arith, omega arith)
one_more (connected (registered false)) c = (omega arith, omega arith)
one_more (connected (registered true)) c = (omega arith, omega arith)

first_and_rest :
    (o : Outcome) (outcomes : List Outcome)
    → (connections (o ∷ outcomes) ≡ connections (o ∷ []) + connections outcomes)
      × (active_dials (o ∷ outcomes) ≡ active_dials (o ∷ []) + active_dials outcomes)
first_and_rest unsupported_type outcomes = (omega arith, omega arith)
first_and_rest setup_failed outcomes = (omega arith, omega arith)
first_and_rest handshake_failed outcomes = (omega arith, omega arith)
first_and_rest device_failed outcomes = (omega arith, omega arith)
first_and_rest device_not_up outcomes = (omega arith, omega arith)
first_and_rest key_refused outcomes = (omega arith, omega arith)
first_and_rest (connected p2p_off) outcomes = (omega arith, omega arith)
first_and_rest (connected no_host) outcomes = (omega arith, omega arith)
first_and_rest (connected not_registered) outcomes = (omega arith, omega arith)
first_and_rest (connected (registered false)) outcomes = (omega arith, omega arith)
first_and_rest (connected (registered true)) outcomes = (omega arith, omega arith)

counted :
    (outcomes : List Outcome) (c : Client)
    → ((reconnects outcomes c).encryptors ≡ c.encryptors + connections outcomes)
      × ((reconnects outcomes c).dial_loops ≡ c.dial_loops + active_dials outcomes)
counted [] c = (omega arith, omega arith)
counted (o ∷ outcomes) c =
    let (encryptors, loops) = counted outcomes (reconnect o c) in
    let (one, loop) = one_more o c in
    let (split, split_loops) = first_and_rest o outcomes in
    (omega (arith, encryptors, one, split), omega (arith, loops, loop, split_loops))

new-AllBalanced : AllBalanced new_client
new-AllBalanced = record {
  hub_balanced = record { open_held = refl };
  inner_balanced = record { open_held = refl };
  dev_balanced = record { open_held = refl };
  host_balanced = record { open_held = refl };
  manager_balanced = record { open_held = refl };
}

-- However many times a new client connects again, and wherever each try fails: after `ReleaseAll`,
-- each hub, inner client, device, peer-to-peer host and manager that was opened is closed, each
-- once. But the options have got one encryptor for each try that came so far, and there is one more
-- loop that dials peers for each that was registered with `ActiveDialPeer`, as neither is taken
-- back.
pub reconnects-release_all :
    (outcomes : List Outcome)
    → let c = release_all (reconnects outcomes new_client) in
      AllShut c × (c.encryptors ≡ connections outcomes) × (c.dial_loops ≡ active_dials outcomes)
unfolding release_all
reconnects-release_all outcomes = (
  release_all-AllShut (reconnects outcomes new_client)
      (reconnects-AllBalanced outcomes new_client new-AllBalanced),
  omega (arith, (counted outcomes new_client).0),
  omega (arith, (counted outcomes new_client).1),
)
