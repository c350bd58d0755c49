-- ===== src/Scan/Hosts.antt =====
-- internal/scan/scan.go, `localHosts`: no host is probed twice.
use Prim.Native.Nat.{zero, suc}
use pos_agent.Base.{
  ℕ, ◌≡◌, refl, Bool, false, not, ◌||◌, Option, none, some, List, [], ◌∷◌, ◌++◌, Text, text_eq,
  ◌==◌, if_lem, any, nat_eqb, ltb, arith, inl, inr, Bool-cases,
}
use pos_agent.Scan.{
  IpNet, Interface, dotted, is_listed, add_host, sweep, sweep_addrs, sweep_interface, sweep_all,
  local_hosts,
}

-- Every host stands once.
abbrev pub AreDistinct : List Text → Type 0
AreDistinct [] = Unit
AreDistinct (h ∷ hosts) = (is_listed h hosts ≡ false) × AreDistinct hosts

differ-sym : (x h : Text) → (x == h) ≡ false → (h == x) ≡ false
differ-sym x h e =
    elim (text_eq.dec h x) as (λ d. text_eq.dec h x ≡ d → (h == x) ≡ false) [
      | yes same ↦
          λ _. absurd (let equal : (x == x) ≡ false = rw same at e in ground (arith, equal))
      | no differ ↦ λ d. rw d refl
    ]
      refl

is_listed-append :
    (x h : Text) (hosts : List Text) → is_listed x (hosts ++ h ∷ []) ≡ (is_listed x hosts || h == x)
unfolding any
is_listed-append x h [] = ground arith
is_listed-append x h (y ∷ hosts) = ground (arith, is_listed-append x h hosts)

append-AreDistinct :
    (h : Text) (hosts : List Text)
    → is_listed h hosts ≡ false
    → AreDistinct hosts
    → AreDistinct (hosts ++ h ∷ [])
unfolding any
append-AreDistinct h [] fresh distinct = (refl, tt)
append-AreDistinct h (x ∷ hosts) fresh (first, distinct) =
    let other = differ-sym x h (ground arith) in
    let listed = is_listed-append x h hosts in
    (ground arith, append-AreDistinct h hosts (ground arith) distinct)

add_host-AreDistinct :
    (own h : Text) (hosts : List Text) → AreDistinct hosts → AreDistinct (add_host own h hosts)
unfolding add_host
add_host-AreDistinct own h hosts distinct = elim (Bool-cases (h == own || is_listed h hosts)) [
  | inl skip ↦ rw skip distinct
  | inr fresh ↦ rw fresh (append-AreDistinct h hosts (ground arith) distinct)
]

sweep-AreDistinct :
    (net : IpNet) (i n : ℕ) (hosts : List Text)
    → AreDistinct hosts
    → AreDistinct (sweep net i n hosts)
unfolding sweep
sweep-AreDistinct net i zero hosts h = h
sweep-AreDistinct net i (suc n) hosts h =
    sweep-AreDistinct net (suc i) n _ (add_host-AreDistinct _ (dotted net.a net.b net.c i) hosts h)

module _ (is_private : IpNet → Bool) where
  sweep_addrs-AreDistinct :
      (addrs : List (Option IpNet)) (hosts : List Text)
      → AreDistinct hosts
      → AreDistinct (sweep_addrs is_private addrs hosts)
  unfolding sweep_addrs
  sweep_addrs-AreDistinct [] hosts h = h
  sweep_addrs-AreDistinct (none ∷ addrs) hosts h = sweep_addrs-AreDistinct addrs hosts h
  sweep_addrs-AreDistinct (some net ∷ addrs) hosts h = sweep_addrs-AreDistinct addrs _ (
      if_lem AreDistinct (not (is_private net)) h (
        if_lem AreDistinct (not (nat_eqb net.bits 32) || ltb net.ones 24) h
          (sweep-AreDistinct net 1 254 hosts h)))

  sweep_interface-AreDistinct :
      (addrs : Option (List (Option IpNet))) (hosts : List Text)
      → AreDistinct hosts
      → AreDistinct (sweep_interface is_private addrs hosts)
  sweep_interface-AreDistinct none hosts h = h
  sweep_interface-AreDistinct (some addrs) hosts h = sweep_addrs-AreDistinct addrs hosts h

  sweep_all-AreDistinct :
      (ifaces : List Interface) (hosts : List Text)
      → AreDistinct hosts
      → AreDistinct (sweep_all is_private ifaces hosts)
  unfolding sweep_all
  sweep_all-AreDistinct [] hosts h = h
  sweep_all-AreDistinct (iface ∷ ifaces) hosts h = sweep_all-AreDistinct ifaces _ (
      if_lem AreDistinct (not iface.up || iface.loopback) h
        (sweep_interface-AreDistinct iface.addrs hosts h))

  -- Whatever interfaces and networks a machine has, no host is probed twice.
  pub local_hosts-AreDistinct :
      (ifaces : List Interface) → AreDistinct (local_hosts is_private ifaces)
  unfolding local_hosts
  local_hosts-AreDistinct ifaces = sweep_all-AreDistinct ifaces [] tt
