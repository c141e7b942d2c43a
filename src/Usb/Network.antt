-- ===== src/Usb/Network.antt =====
-- core/usb/rndis.go: the arithmetic of IPv4 masks, subnets and addresses, and the bytes of the DNS
-- query. An address is the 32-bit number that `binary.BigEndian` reads in its four bytes.
pub mod Masks
pub mod Client
pub mod Pool
use Prim.Native.Nat.{bit_or}
use wifi_stick_usb_switcher.Prelude.{
  ℕ, zero, suc, ◌+◌, ◌-◌, ◌*◌, ◌/◌, ◌%◌, ◌^◌, Bool, true, false, List, [], ◌∷◌, ◌++◌, Option, none,
  some, ◌==◌, leb, ltb, if◌then◌else◌, length,
}
use wifi_stick_usb_switcher.Prelude.Words.{all_ones, complement, shift_left, ones_count}
use wifi_stick_usb_switcher.Prelude.Text.{Bytes, codes}
use wifi_stick_usb_switcher.Prelude.Decimal.{itoa}
use wifi_stick_usb_switcher.Prelude.Search.{split}

abbrev pub Addr : Type 0
Addr = ℕ

-- `other` stands for the invalid prefixes and those of IPv6.
pub data Prefix : Type 0 where
  v4 : Addr → ℕ → Prefix
  other : Prefix

-- `Prefix.Masked().Addr()`.
abbrev pub masked : Addr → ℕ → Addr
masked a bits = a / 2 ^ (32 - bits) * 2 ^ (32 - bits)

-- `Addr.Next()` and `Addr.Prev()`; `none` is the invalid address.
abbrev pub next : Addr → Option Addr
next a = if a == all_ones then none else some (a + 1)

abbrev pub prev : Addr → Option Addr
prev zero = none
prev (suc a) = some a

abbrev pub prefix_mask : ℕ → ℕ
prefix_mask bits = shift_left all_ones (32 - bits)

unfoldable pub mask_to_prefix : Addr → Option ℕ
mask_to_prefix mask =
    let prefix = ones_count 32 mask in if prefix_mask prefix == mask then some prefix else none

unfoldable pub subnet_last : Prefix → Option Addr
subnet_last other = none
subnet_last (v4 addr bits) =
    if leb 32 bits then none else some (bit_or (masked addr bits) (complement (prefix_mask bits)))

-- The four bytes of an address, and the address of four bytes.
abbrev pub as4 : Addr → Bytes
as4 a = a / 2 ^ 24 % 256 ∷ a / 2 ^ 16 % 256 ∷ a / 2 ^ 8 % 256 ∷ a % 256 ∷ []

abbrev pub from4 : Bytes → Addr
from4 (a ∷ b ∷ c ∷ d ∷ rest) = a * 2 ^ 24 + b * 2 ^ 16 + c * 2 ^ 8 + d
from4 _ = 0

-- The loop from byte `i` on that overwrites `n[i]` with `c[i]`.
abbrev pub copy_from : ℕ → Bytes → Bytes → Bytes
copy_from zero ns cs = cs
copy_from (suc i) (n ∷ ns) (c ∷ cs) = n ∷ copy_from i ns cs
copy_from (suc i) ns cs = ns

abbrev pub two_before : Option Addr → Option Addr
two_before (some (suc (suc a))) = some a
two_before _ = none

-- `none` is the invalid address.
unfoldable pub calc_client_ip : Addr → ℕ → Addr → Option Addr
calc_client_ip network prefix client_ip =
    if prefix % 8 == 0
    then some (from4 (copy_from (prefix / 8) (as4 network) (as4 client_ip)))
    else two_before (subnet_last (v4 network prefix))

-- From the address after the router's to the one before the last, where there are such.
abbrev pub pool_between : Addr → Addr → Option (Addr × Addr)
pool_between router last = elim (next router) [
  | none ↦ none
  | some start ↦ elim (prev last) [
    | none ↦ none
    | some end ↦ if ltb end start then none else some (start, end)
  ]
]

-- The addresses that `start_dnsmasq` leases out: `none` where it starts no server.
unfoldable pub dhcp_pool : Prefix → Option (Addr × Addr)
dhcp_pool other = none
dhcp_pool (v4 router bits) = elim (subnet_last (v4 router bits)) [
  | none ↦ none
  | some last ↦ pool_between router last
]

-- `Addr.String()`.
unfoldable pub show_addr : Addr → Bytes
show_addr a =
    itoa (a / 2 ^ 24 % 256)
    ++ (b'.' ∷ itoa (a / 2 ^ 16 % 256)
        ++ (b'.' ∷ itoa (a / 2 ^ 8 % 256) ++ (b'.' ∷ itoa (a % 256))))

-- A length as one byte, then the label.
unfoldable pub question : List Bytes → Bytes
question [] = 0 ∷ []
question (label ∷ rest) = length label % 256 ∷ label ++ question rest

unfoldable pub dns_query : Bytes → Bytes
dns_query name =
    (0x12 ∷ 0x34 ∷ 1 ∷ 0 ∷ 0 ∷ 1 ∷ 0 ∷ 0 ∷ 0 ∷ 0 ∷ 0 ∷ 0 ∷ [])
    ++ question (split b'.' name)
    ++ (0 ∷ 1 ∷ 0 ∷ 1 ∷ [])
