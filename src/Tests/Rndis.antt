-- ===== src/Tests/Rndis.antt =====
-- The network side of RNDIS on a system whose state is its clock.
use wifi_stick_usb_switcher.Prelude.{
  ℕ, ◌+◌, ◌-◌, ◌/◌, ◌%◌, ◌^◌, ◌≤◌, Bool, true, false, List, [], ◌∷◌, Option, none, some, ◌≡◌, ◌≢◌,
  ◌↔◌, refl, arith, if◌then◌else◌,
}
use wifi_stick_usb_switcher.Prelude.Text.{Bytes, codes, bytes_eq}
use wifi_stick_usb_switcher.Usb.Network.{
  Addr, v4, from4, masked, prefix_mask, mask_to_prefix, calc_client_ip, dhcp_pool,
}
use wifi_stick_usb_switcher.Usb.Network.Masks.{mask_to_prefix-prefix_mask}
use wifi_stick_usb_switcher.Usb.Network.Client.{calc_client_ip_subnet}
use wifi_stick_usb_switcher.Usb.Network.Pool.{dhcp_pool_subnet, dhcp_pool-none}
use wifi_stick_usb_switcher.Usb.Resolv.{
  Files, absent, regular, link, apply_dns, restore_dns, resolv_text,
}
use wifi_stick_usb_switcher.Usb.Resolv.Restore.{
  IsSame, apply_all, restore_dns-apply_dns, restore_dns-absent,
}
use wifi_stick_usb_switcher.Usb.Rndis.{UsbGadgetRndis, Host, IsTimely, World, Ip, ip4}
use wifi_stick_usb_switcher.Usb.Rndis.Modes.{Outcome, enable}
use wifi_stick_usb_switcher.Usb.Rndis.Modes.Runs.{starts, enable-IsSame}

abbrev router : Addr
router = from4 (192 ∷ 168 ∷ 137 ∷ 1 ∷ [])

abbrev client : Addr
client = from4 (0 ∷ 0 ∷ 22 ∷ 33 ∷ [])

mask_to_prefix-prefix_mask_example :
    (mask_to_prefix 0xffff_ff00 ≡ some 24) ↔ ((24 ≤ 32) × (prefix_mask 24 ≡ 0xffff_ff00))
mask_to_prefix-prefix_mask_example = mask_to_prefix-prefix_mask 0xffff_ff00 24

calc_client_ip_subnet_example :
    (ip : Addr) × (calc_client_ip (masked router 29) 29 client ≡ some ip)
    × (ip / 2 ^ (32 - 29) ≡ router / 2 ^ (32 - 29))
    × ((29 % 8 ≡ 0) → ip % 2 ^ (32 - 29) ≡ client % 2 ^ (32 - 29))
    × (29 % 8 ≢ 0 → ip + 2 ≡ masked router 29 + (2 ^ (32 - 29) - 1))
calc_client_ip_subnet_example =
    calc_client_ip_subnet router client 29 (omega arith) (omega arith) (omega arith)

whole_bytes : calc_client_ip (masked router 24) 24 client ≡ some (from4 (192 ∷ 168 ∷ 137 ∷ 33 ∷ []))
unfolding calc_client_ip
whole_bytes = refl

dhcp_pool_subnet_example :
    (end : Addr) × (dhcp_pool (v4 router 24) ≡ some (router + 1, end))
    × (end + 1 ≡ masked router 24 + (2 ^ (32 - 24) - 1))
    × ((a : Addr) → router + 1 ≤ a → a ≤ end → a / 2 ^ (32 - 24) ≡ router / 2 ^ (32 - 24))
dhcp_pool_subnet_example = dhcp_pool_subnet router 24 (omega arith) (omega arith) (omega arith)

dhcp_pool-none_example : dhcp_pool (v4 (router + 1) 30) ≡ none
dhcp_pool-none_example = dhcp_pool-none (router + 1) 30 (omega arith) (omega arith)

abbrev target : Bytes
target = codes "/run/stub"

abbrev pub linked_files : Files
linked_files = record {
  conf = link target;
  backup = none;
  contents = λ p. if bytes_eq p target then some (codes "nameserver 127.0.0.53") else none;
}

linked_text : linked_files.contents target ≡ some (codes "nameserver 127.0.0.53")
unfolding bytes_eq
linked_text = refl

abbrev uses : List (List Addr × Addr)
uses = ((router ∷ []), router) ∷ ([], router) ∷ []

restore_dns-apply_dns_example :
    IsSame linked_files (restore_dns (apply_all uses linked_files))
    × ((restore_dns (apply_all uses linked_files)).backup ≡ none)
restore_dns-apply_dns_example =
    restore_dns-apply_dns linked_files uses
      (ground arith, (codes "nameserver 127.0.0.53", linked_text)) refl

abbrev no_files : Files
no_files = record { conf = absent; backup = none; contents = λ p. none }

restore_dns-absent_example :
    (restore_dns (apply_dns [] router no_files)).conf ≡ regular (resolv_text [] router)
restore_dns-absent_example = restore_dns-absent no_files [] router refl refl

abbrev read_ip : Bool → Option Ip
read_ip true = some (ip4 0xffff_ff00)
read_ip false = some (ip4 router)

abbrev pub host : Host ℕ
host = record {
  now = λ t. t;
  sleep = λ t w. w + t;
  command = λ argv w. (false, [], w + 1);
  command_within = λ t argv w.
      (false, codes "RNDIS_SUBNET=255.255.255.0\nRNDIS_ROUTER=192.168.137.1\n", w + 2000);
  interface_exists = λ ifname w. true;
  interface_addrs = λ ifname w. [];
  resolve_ifname = λ w. [];
  read_file = λ p w. some (codes "1\n");
  file_exists = λ p w. false;
  make_dirs = λ p w. (true, w);
  write_file = λ p t w. (false, w);
  remove_file = λ p w. w;
  pid_files = λ w. [];
  kill = λ pid w. (false, w);
  query = λ a t q w. (false, w);
  parse_ip = λ s. read_ip (bytes_eq s (codes "255.255.255.0"));
}

host-IsTimely : IsTimely host
host-IsTimely = record {
  sleep_takes = λ t w. omega arith;
  command_within_takes = λ t argv w. omega arith;
  write_file_takes = λ p t w. omega arith;
  remove_file_takes = λ p w. omega arith;
}

abbrev pub function : UsbGadgetRndis
function = record {
  ip_addr = v4 (from4 (10 ∷ 22 ∷ 33 ∷ 1 ∷ [])) 24;
  ip_text = codes "10.22.33.1/24";
  client_ip = client;
  client_timeout = 20000;
  ics_timeout = 3000;
  ifname = codes "usb0";
  dnsmasq_args = [];
  submode = 1;
}

abbrev world : World ℕ
world = record { outside = 0; files = linked_files }

enable-IsSame_example :
    (o : Outcome ℕ) × (enable host function world ≡ some o)
    × (o.0 ≡ none → o.1.submode ≡ 0 → IsSame linked_files o.2.files × (o.2.files.backup ≡ none))
enable-IsSame_example =
    enable-IsSame host host-IsTimely linked_files
      (ground arith, (codes "nameserver 127.0.0.53", linked_text)) refl world function
      (starts world refl) (omega arith)
