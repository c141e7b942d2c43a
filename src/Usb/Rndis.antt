-- ===== src/Usb/Rndis.antt =====
-- core/usb/rndis.go: the RNDIS function and what it asks of the system it runs on.
pub mod Dnsmasq
pub mod Probe
pub mod Modes
use Prim.Native.String.{String}
use wifi_stick_usb_switcher.Prelude.{
  ℕ, zero, suc, ◌+◌, ◌≤◌, Bool, false, not, ◌||◌, List, [], ◌∷◌, Option, if◌then◌else◌,
}
use wifi_stick_usb_switcher.Prelude.Text.{Bytes, codes, bytes_eq}
use wifi_stick_usb_switcher.Usb.Network.{Addr, Prefix}
use wifi_stick_usb_switcher.Usb.Resolv.{Files}

-- `ip_text` is `ip_addr.String()`. Times are in milliseconds.
pub record UsbGadgetRndis : Type 0 where
  pub ip_addr : Prefix
  pub ip_text : Bytes
  pub client_ip : Addr
  pub client_timeout : ℕ
  pub ics_timeout : ℕ
  pub ifname : Bytes
  pub dnsmasq_args : List Bytes
  pub submode : ℕ

-- What `net.ParseIP` gives.
pub data Ip : Type 0 where
  ip4 : Addr → Ip
  ip6 : Ip

-- The operating system, with its state of type `W`.
pub record Host (W : Type 0) : Type 0 where
  pub now : W → ℕ
  pub sleep : ℕ → W → W
  -- The error is false where the command succeeds; the output is stdout and stderr.
  pub command : List Bytes → W → Bool × Bytes × W
  -- The same, killed when it has not ended in time.
  pub command_within : ℕ → List Bytes → W → Bool × Bytes × W
  pub interface_exists : Bytes → W → Bool
  pub interface_addrs : Bytes → W → List Bytes
  -- The function attribute `ifname`; empty while it cannot be read or is a pattern.
  pub resolve_ifname : W → Bytes
  pub read_file : Bytes → W → Option Bytes
  pub file_exists : Bytes → W → Bool
  pub make_dirs : Bytes → W → Bool × W
  pub write_file : Bytes → Bytes → W → Bool × W
  pub remove_file : Bytes → W → W
  pub pid_files : W → List Bytes
  pub kill : ℕ → W → Bool × W
  -- One datagram to port 53 and whether anything came back in time.
  pub query : Addr → ℕ → Bytes → W → Bool × W
  pub parse_ip : Bytes → Option Ip

-- What the loops rely on: the clock does not run back, and a sleep takes its time.
pub record IsTimely {W : Type 0} (host : Host W) : Type 0 where
  pub sleep_takes : (t : ℕ) (w : W) → host.now w + t ≤ host.now (host.sleep t w)
  pub command_within_takes :
      (t : ℕ) (argv : List Bytes) (w : W) → host.now w ≤ host.now (host.command_within t argv w).2
  pub write_file_takes : (p t : Bytes) (w : W) → host.now w ≤ host.now (host.write_file p t w).1
  pub remove_file_takes : (p : Bytes) (w : W) → host.now w ≤ host.now (host.remove_file p w)

-- The resolver's files stand beside the rest: no command of the program writes them.
pub record World (W : Type 0) : Type 0 where
  pub outside : W
  pub files : Files

abbrev pub with_outside : {W : Type 0} → World W → W → World W
with_outside w out = record w { outside = out }

abbrev pub with_files : {W : Type 0} → World W → Files → World W
with_files w fs = record w { files = fs }

pub data RndisError : Type 0 where
  no_interface : Bytes → RndisError
  no_such_submode : ℕ → RndisError
  mask_not_contiguous : Addr → RndisError
  prefix_too_small : ℕ → RndisError
  address_refused : Bytes → RndisError
  probe_failed : RndisError
  -- The Go code panics.
  crashed : RndisError

module _ {W : Type 0} (host : Host W) where
  -- A command whose failure is only logged.
  unfoldable pub run : List Bytes → W → W
  run argv w = let (failed, out, w') = host.command argv w in w'

  unfoldable pub is_listed : Bytes → List Bytes → Bool
  is_listed spec [] = false
  is_listed spec (a ∷ rest) = bytes_eq a spec || is_listed spec rest

  abbrev pub has_iface_addr : Bytes → Bytes → W → Bool
  has_iface_addr ifname spec w = is_listed spec (host.interface_addrs ifname w)

  abbrev pub ip_addr_add : Bytes → Bytes → List Bytes
  ip_addr_add ifname spec =
      codes "ip" ∷ codes "addr" ∷ codes "add" ∷ spec ∷ codes "dev" ∷ ifname ∷ []

  -- One attempt, and as many retries after it as the first argument says.
  unfoldable pub add_attempts : ℕ → Bytes → Bytes → W → Bool × W
  add_attempts zero ifname spec w =
      let (failed, out, w') = host.command (ip_addr_add ifname spec) w in
      if failed then (not (has_iface_addr ifname spec w'), w') else (false, w')
  add_attempts (suc retries) ifname spec w =
      let (failed, out, w') = host.command (ip_addr_add ifname spec) w in
      let later = add_attempts retries ifname spec (host.sleep 500 w') in
      if failed then if has_iface_addr ifname spec w' then (false, w') else later else (false, w')

  -- Three attempts; the answer is whether all failed.
  abbrev pub add_iface_addr : Bytes → Bytes → W → Bool × W
  add_iface_addr ifname spec w = add_attempts 2 ifname spec w

  abbrev pub ip_flush : String → Bytes → List Bytes
  ip_flush what ifname = codes "ip" ∷ codes what ∷ codes "flush" ∷ codes "dev" ∷ ifname ∷ []

  abbrev pub default_route : Bytes → Bytes → List Bytes
  default_route router ifname =
      codes "ip"
      ∷ codes "route"
      ∷ codes "add"
      ∷ codes "default"
      ∷ codes "via"
      ∷ router
      ∷ codes "dev"
      ∷ ifname
      ∷ []
