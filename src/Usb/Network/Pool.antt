-- ===== src/Usb/Network/Pool.antt =====
-- core/usb/rndis.go, start_dnsmasq: the addresses that the gateway submode leases to the host.
use native.Mathlib.Nat.{pow-le-pow_right, div-mul-le_self}
use wifi_stick_usb_switcher.Prelude.{
  ℕ, zero, suc, ◌+◌, ◌-◌, ◌/◌, ◌^◌, ◌≤◌, ◌<◌, ◌≡◌, arith, none, some,
}
use wifi_stick_usb_switcher.Usb.Network.{Addr, v4, masked, pool_between, dhcp_pool}
use wifi_stick_usb_switcher.Usb.Network.Masks.{broadcast_fits, subnet_last_lem, subnet_lem}

pool_between-some :
    (router last : Addr)
    → last < 2 ^ 32
    → router + 2 ≤ last
    → pool_between router last ≡ some (router + 1, last - 1)
pool_between-some router zero fits room = absurd (omega arith)
pool_between-some router (suc end) fits room = ground arith

pool_between-none : (router last : Addr) → last < router + 2 → pool_between router last ≡ none
pool_between-none router zero full = ground arith
pool_between-none router (suc end) full = ground arith

-- A router that lies two addresses or more before the broadcast address of its subnet leases the
-- addresses from the one after its own to the one before the broadcast address; all of them are of
-- its subnet.
pub dhcp_pool_subnet :
    (router p : ℕ)
    → p < 32
    → router < 2 ^ 32
    → router + 2 ≤ masked router p + (2 ^ (32 - p) - 1)
    → (end : Addr) × (dhcp_pool (v4 router p) ≡ some (router + 1, end))
      × (end + 1 ≡ masked router p + (2 ^ (32 - p) - 1))
      × ((a : Addr) → router + 1 ≤ a → a ≤ end → a / 2 ^ (32 - p) ≡ router / 2 ^ (32 - p))
unfolding dhcp_pool
dhcp_pool_subnet router p hp hr room =
    let start : masked router p ≤ router = div-mul-le_self router (2 ^ (32 - p)) in
    let size : 2 ^ 1 ≤ 2 ^ (32 - p) =
      pow-le-pow_right {n = 2} (omega arith) {i = 1} (omega arith) in
    let pool : dhcp_pool (v4 router p)
        ≡ some (router + 1, masked router p + (2 ^ (32 - p) - 1) - 1) =
      rw (dhcp_pool, subnet_last_lem router p hp)
        (pool_between-some router _ (broadcast_fits router p hp hr) room) in
    (
      masked router p + (2 ^ (32 - p) - 1) - 1,
      pool,
      omega arith,
      λ a lo hi. subnet_lem router a (2 ^ (32 - p)) (omega arith) (omega arith),
    )

-- A router that lies less than two addresses before the broadcast address leases nothing.
pub dhcp_pool-none :
    (router p : ℕ)
    → p < 32
    → masked router p + (2 ^ (32 - p) - 1) < router + 2
    → dhcp_pool (v4 router p) ≡ none
unfolding dhcp_pool
dhcp_pool-none router p hp full =
    rw (dhcp_pool, subnet_last_lem router p hp) (pool_between-none router _ full)
