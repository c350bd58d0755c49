-- ===== src/Scan.antt =====
-- internal/scan/scan.go: the hosts that are probed for a printer, and what the answers are merged to.
-- The network interfaces and the probes are parameters; the probes run at once, so the answers are a
-- list in any order.
pub mod Hosts
pub mod Devices
mod Tests
use Prim.Native.Nat.{zero, suc}
use pos_agent.Base.{
  ℕ, Bool, true, false, not, ◌&&◌, ◌||◌, Option, none, some, List, [], ◌∷◌, ◌++◌, Text, text,
  text_eq, text_less, ◌==◌, if◌then◌else◌, nat_eqb, ltb, any, map,
}
use pos_agent.Base.Int.{pos}
use pos_agent.Base.Decimal.{itoa}
use pos_agent.Base.Sort.{sort}

-- An IPv4 address of an interface, with the length of its mask and of its address in bits.
pub record IpNet : Type 0 where
  pub a : ℕ
  pub b : ℕ
  pub c : ℕ
  pub d : ℕ
  pub ones : ℕ
  pub bits : ℕ

-- An interface. Its addresses are `none` where they cannot be read; an address that is not an IPv4
-- network is `none`.
pub record Interface : Type 0 where
  pub up : Bool
  pub loopback : Bool
  pub addrs : Option (List (Option IpNet))

-- `net.IPv4(…).String()`
abbrev pub dotted : ℕ → ℕ → ℕ → ℕ → Text
dotted a b c d = itoa (pos a) ++ b'.' ∷ itoa (pos b) ++ b'.' ∷ itoa (pos c) ++ b'.' ∷ itoa (pos d)

abbrev pub is_listed : Text → List Text → Bool
is_listed h hosts = any (λ x. x == h) hosts

-- One round of the sweep; the hosts so far are those that were seen.
unfoldable pub add_host : Text → Text → List Text → List Text
unfolding any
add_host own h hosts = if h == own || is_listed h hosts then hosts else hosts ++ h ∷ []

-- The sweep from `i` on, of `n` addresses. A mask of 24 bits or more keeps the first three bytes.
unfoldable pub sweep : IpNet → ℕ → ℕ → List Text → List Text
unfolding add_host itoa
sweep net i zero hosts = hosts
sweep net i (suc n) hosts =
    sweep net (suc i) n
      (add_host (dotted net.a net.b net.c net.d) (dotted net.a net.b net.c i) hosts)

module _ (is_private : IpNet → Bool) where
  unfoldable pub sweep_addrs : List (Option IpNet) → List Text → List Text
  unfolding sweep
  sweep_addrs [] hosts = hosts
  sweep_addrs (none ∷ addrs) hosts = sweep_addrs addrs hosts
  sweep_addrs (some net ∷ addrs) hosts = sweep_addrs addrs (
      if not (is_private net)
      then hosts
      else if not (nat_eqb net.bits 32) || ltb net.ones 24
      then hosts
      else sweep net 1 254 hosts)

  abbrev pub sweep_interface : Option (List (Option IpNet)) → List Text → List Text
  sweep_interface none hosts = hosts
  sweep_interface (some addrs) hosts = sweep_addrs addrs hosts

  -- The loop of `localHosts`
  unfoldable pub sweep_all : List Interface → List Text → List Text
  unfolding sweep_addrs
  sweep_all [] hosts = hosts
  sweep_all (iface ∷ ifaces) hosts =
      sweep_all ifaces
        (if not iface.up || iface.loopback then hosts else sweep_interface iface.addrs hosts)

  -- `localHosts`
  unfoldable pub local_hosts : List Interface → List Text
  unfolding sweep_all
  local_hosts ifaces = sweep_all ifaces []

pub record Device : Type 0 where
  pub ip : Text
  pub ports : List ℕ
  pub likely : Bool

-- `hit`
pub record Hit : Type 0 where
  pub ip : Text
  pub port : ℕ

unfoldable pub with_port : ℕ → Device → Device
with_port port d = record d { ports = d.ports ++ port ∷ []; likely = nat_eqb port 9100 || d.likely }

-- `byIP`, a map, as the devices in the order of their first answer
unfoldable pub add_hit : Hit → List Device → List Device
unfolding with_port
add_hit h [] = with_port h.port (record { ip = h.ip; ports = []; likely = false }) ∷ []
add_hit h (d ∷ devices) =
    if d.ip == h.ip then with_port h.port d ∷ devices else d ∷ add_hit h devices

unfoldable pub merge_hits : List Hit → List Device → List Device
unfolding add_hit
merge_hits [] devices = devices
merge_hits (h ∷ hits) devices = merge_hits hits (add_hit h devices)

abbrev pub sort_ports : Device → Device
sort_ports d = record d { ports = sort ltb d.ports }

-- The most likely printers first, then by address.
unfoldable pub ranks_first : Device → Device → Bool
ranks_first d e =
    if not d.likely && e.likely || d.likely && not e.likely then d.likely else text_less d.ip e.ip

-- The part of `Scan` on the answers of the probes.
unfoldable pub devices_of : List Hit → List Device
unfolding merge_hits ranks_first
devices_of hits = sort ranks_first (map sort_ports (merge_hits hits []))

-- The port of `Addr`, with `none` where `d.Ports[0]` is out of range
unfoldable pub addr_port : List ℕ → Option ℕ
unfolding any
addr_port [] = none
addr_port (port ∷ ports) = some (if any (λ p. nat_eqb p 9100) (port ∷ ports) then 9100 else port)
