-- ===== src/Networks/Tests.antt =====
-- The network 10.0.0.0/30, whose pool goes from 10.0.0.1 to 10.0.0.3.
use mathlib.Core.Option.{none-ne-some}
use go_vnet.Base.{
  ℕ, ◌≡◌, refl, Bool, true, false, none, some, [], ◌∷◌, arith, ◌==◌, find, store, codes,
}
use go_vnet.Addresses.{IpAllocator, already_allocated}
use go_vnet.Addresses.Assignment.{is_taken}
use go_vnet.Networks.{Row, Manager, create_network, started, new_network, invalid_network}
use go_vnet.Networks.Backed.{IsBacked, creates, starts, updates, run, run-IsBacked}
use go_vnet.Networks.Devices.{Net, Device, acquire_device, no_quota, not_assigned}
use go_vnet.Networks.Locked.{acquire_device_locked}

abbrev row : Row
row = record { cidr = 5; name = 6; mtu = 1400; description = 0 }

abbrev no_networks : Manager
no_networks = record { rows = []; networks = []; stopped = [] }

abbrev even : ℕ → Bool
even n = n == 5

run-IsBacked_example : IsBacked (
    run even
      (creates true 1 row ∷ starts 1 ∷ updates true (some 8) none none 1 ∷ starts 1 ∷ [])
      no_networks)
unfolding find
run-IsBacked_example =
    run-IsBacked even
      (creates true 1 row ∷ starts 1 ∷ updates true (some 8) none none 1 ∷ starts 1 ∷ [])
      no_networks (refl, tt) (λ id n h. absurd (none-ne-some n h))

-- The row of a network that cannot run stays.
row_stays :
    create_network true even 1 (record row { cidr = 7 }) no_networks
    ≡ (record no_networks { rows = (1, record row { cidr = 7 }) ∷ [] }, some invalid_network)
unfolding create_network started new_network store
row_stays = refl

abbrev pool : IpAllocator
pool = record {
  network = codes "10.0.0.0/30";
  start_ip = 10 ∷ 0 ∷ 0 ∷ 1 ∷ [];
  end_ip = 10 ∷ 0 ∷ 0 ∷ 3 ∷ [];
  allocated = [];
  subnet_mask = codes "255.255.255.252";
  subnet_mask_bits = 30;
  total_ips = 3;
}

abbrev net : Net
net = record { pool = pool; sessions = []; stopped = [] }

abbrev device : Device
device = record { fixed_ip = 1; info_found = true; bandwidth_found = true; traffic_found = false }

acquire_device_locked_example :
    (left : Net) × (acquire_device (λ i. 0) device none 3 net ≡ (left, some no_quota))
    × (is_taken 167772162 left.pool ≡ true)
    × (left.sessions ≡ [])
    × (acquire_device (λ i. 0) (record device { traffic_found = true }) none 4 left
        ≡ (left, some (not_assigned already_allocated)))
acquire_device_locked_example =
    acquire_device_locked (λ i. 0) (λ i. 0) device (record device { traffic_found = true }) 3 4 net
      (omega arith) refl refl (omega arith) refl refl refl
