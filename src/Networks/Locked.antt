-- ===== src/Networks/Locked.antt =====
-- manager/server/internal/logic/network/device.go: what a lookup of a quota that fails leaves
-- behind.
use go_vnet.Base.{
  ℕ, ◌%◌, ◌^◌, ◌<◌, ◌≤◌, ◌≡◌, refl, ap, ◌∙◌, true, false, ◌&&◌, none, some, arith, ltb,
  if◌then◌else◌,
}
use go_vnet.Router.{Text}
use go_vnet.Addresses.{
  IpAllocator, ok, already_allocated, uint32_to_ip, with_bits, mark, assign_by_offset, contains,
}
use go_vnet.Addresses.Texts.{text_eq_refl}
use go_vnet.Addresses.Assignment.{
  at_offset, last, is_taken, assign_free, assign_taken, contains-mark,
}
use go_vnet.Networks.Devices.{
  Net, Device, no_device_info, not_assigned, no_quota, stop_last, assign, finish, acquire_of,
  acquire_device,
}

-- the address that a device is fixed to
abbrev pub fixed_address : Device → Net → ℕ
fixed_address d n = at_offset (d.fixed_ip % 2 ^ 32) n.pool

-- the network with this address taken, and nothing else changed
abbrev pub taken_in : ℕ → Net → Net
taken_in x n = record n { pool = mark (uint32_to_ip x) n.pool }

fixed_assign :
    (draws : ℕ → ℕ) (fixed_ip : ℕ) (pool : IpAllocator)
    → 0 < fixed_ip
    → assign draws fixed_ip pool ≡ assign_by_offset (fixed_ip % 2 ^ 32) pool
unfolding assign
fixed_assign draws fixed_ip pool h =
    let given : ltb 0 fixed_ip ≡ true = ground arith in rw given refl

finish_without :
    (d : Device) (id : ℕ) (pool : IpAllocator) (cidr : Text) (n : Net)
    → (d.bandwidth_found && d.traffic_found) ≡ false
    → finish d id (pool, ok cidr) n ≡ (record n { pool = pool }, some no_quota)
unfolding finish
finish_without d id pool cidr n h = ground arith

without_quota :
    (draws : ℕ → ℕ) (d : Device) (id : ℕ) (n : Net)
    → 0 < d.fixed_ip
    → d.info_found ≡ true
    → (d.bandwidth_found && d.traffic_found) ≡ false
    → fixed_address d n ≤ last n.pool
    → is_taken (fixed_address d n) n.pool ≡ false
    → acquire_of draws d id n ≡ (taken_in (fixed_address d n) n, some no_quota)
unfolding acquire_of
without_quota draws d id n fixed info missing low free =
    ap (λ b. if b then finish d id (assign draws d.fixed_ip n.pool) n else (n, some no_device_info))
      info
    ∙ ap (λ r. finish d id r n)
        (fixed_assign draws d.fixed_ip n.pool fixed
          ∙ assign_free (d.fixed_ip % 2 ^ 32) n.pool low free)
    ∙ finish_without d id (mark (uint32_to_ip (fixed_address d n)) n.pool)
        (with_bits (uint32_to_ip (fixed_address d n)) n.pool) n missing

is_taken-mark : (x : ℕ) (pool : IpAllocator) → is_taken x (mark (uint32_to_ip x) pool) ≡ true
is_taken-mark x pool =
    contains-mark (uint32_to_ip x) (uint32_to_ip x) pool
    ∙ ap (λ b. if b then true else contains (uint32_to_ip x) pool.allocated)
        (text_eq_refl (uint32_to_ip x))

refused_again :
    (draws : ℕ → ℕ) (d : Device) (id x : ℕ) (n : Net)
    → 0 < d.fixed_ip
    → d.info_found ≡ true
    → fixed_address d n ≡ x
    → x ≤ last n.pool
    → acquire_of draws d id (taken_in x n) ≡ (taken_in x n, some (not_assigned already_allocated))
unfolding acquire_of finish
refused_again draws d id x n fixed info here low =
    let pool = mark (uint32_to_ip x) n.pool in
    let taken : is_taken (at_offset (d.fixed_ip % 2 ^ 32) pool) pool ≡ true =
      ap (λ y. is_taken y pool) here ∙ is_taken-mark x n.pool in
    ap
      (λ b.
        if b
        then finish d id (assign draws d.fixed_ip pool) (taken_in x n)
        else (taken_in x n, some no_device_info))
      info
    ∙ ap (λ r. finish d id r (taken_in x n))
        (fixed_assign draws d.fixed_ip pool fixed
          ∙ assign_taken (d.fixed_ip % 2 ^ 32) pool (omega (arith, here)) taken)

-- A device with a fixed address that is free: when the lookup of one of its quotas fails,
-- `AcquireDevice` fails and has taken the address, for which there is no session. Every later try
-- of the device that is no reconnection is refused because the address is taken, also when the
-- quotas are found again, and changes nothing.
pub acquire_device_locked :
    (draws later : ℕ → ℕ) (d again : Device) (id next_id : ℕ) (n : Net)
    → 0 < d.fixed_ip
    → d.info_found ≡ true
    → (d.bandwidth_found && d.traffic_found) ≡ false
    → fixed_address d n ≤ last n.pool
    → is_taken (fixed_address d n) n.pool ≡ false
    → again.fixed_ip ≡ d.fixed_ip
    → again.info_found ≡ true
    → (left : Net) × (acquire_device draws d none id n ≡ (left, some no_quota))
      × (is_taken (fixed_address d n) left.pool ≡ true)
      × (left.sessions ≡ n.sessions)
      × (acquire_device later again none next_id left
          ≡ (left, some (not_assigned already_allocated)))
unfolding acquire_device stop_last
acquire_device_locked draws later d again id next_id n fixed info missing low free same info_again =
    (
      taken_in (fixed_address d n) n,
      without_quota draws d id n fixed info missing low free,
      is_taken-mark (fixed_address d n) n.pool,
      refl,
      refused_again later again next_id (fixed_address d n) n (omega (arith, same)) info_again
          (ap (λ f. at_offset (f % 2 ^ 32) n.pool) same) low,
    )
