-- ===== src/Scan/Devices.antt =====
-- internal/scan/scan.go, `Scan` and `Addr`: a device is printed to at a port that answered.
use pos_agent.Base.{
  ℕ, ◌≡◌, ◌↔◌, refl, sym, subst, ◌∙◌, Bool, true, false, some, List, [], ◌∷◌, Text, text_eq,
  nat_eqb, ltb, any, map, arith, inl, inr, Bool-cases, In, In-append_left, In-append_cases,
  In-append_right, All,
}
use pos_agent.Base.Sort.{In-sort}
use pos_agent.Scan.{
  Device, Hit, with_port, add_hit, merge_hits, sort_ports, ranks_first, devices_of, addr_port,
}

abbrev is_raw : ℕ → Bool
is_raw p = nat_eqb p 9100

any-In : (ports : List ℕ) → (any is_raw ports ≡ true) ↔ In 9100 ports
unfolding any
any-In [] = (λ e. cc, λ h. absurd h)
any-In (port ∷ ports) = grind (arith, any-In ports)

any-head : (port : ℕ) (ports : List ℕ) → any is_raw (port ∷ ports) ≡ false → is_raw port ≡ false
unfolding any
any-head port ports e = ground (arith, e)

module _ (hits : List Hit) where
  abbrev Answered : Text → ℕ → Type 0
  Answered ip port = In (record { ip = ip; port = port }) hits

  -- Every port of the device answered, there is one, and the device is likely where one is 9100.
  record IsGrounded (d : Device) : Type 0 where
    answered : (port : ℕ) → In port d.ports → Answered d.ip port
    some_port : (port : ℕ) × In port d.ports
    likely_only : d.likely ≡ true → In 9100 d.ports
    likely_if : In 9100 d.ports → d.likely ≡ true

  -- A device to which an answer is added, whatever ports it had.
  with_port-IsGrounded :
      (port : ℕ) (ip : Text) (ports : List ℕ) (likely : Bool)
      → Answered ip port
      → ((p : ℕ) → In p ports → Answered ip p)
      → (likely ≡ true → In 9100 ports)
      → (In 9100 ports → likely ≡ true)
      → IsGrounded (with_port port (record { ip = ip; ports = ports; likely = likely }))
  unfolding with_port
  with_port-IsGrounded port ip ports likely hit answered only if_so = record {
    answered = λ p h. elim (In-append_cases p ports (port ∷ []) h) [
      | inl before ↦ answered p before
      | inr (inl same) ↦ subst (Answered ip) (sym same) hit
      | inr (inr nothing) ↦ absurd nothing
    ];
    some_port = (port, In-append_right port ports (port ∷ []) (inl refl));
    likely_only = λ e. elim (Bool-cases (nat_eqb port 9100)) [
      | inl raw ↦ In-append_right 9100 ports (port ∷ []) (inl (ground arith))
      | inr lesser ↦ In-append_left 9100 ports (port ∷ []) (only (ground arith))
    ];
    likely_if = λ h. elim (In-append_cases 9100 ports (port ∷ []) h) [
      | inl before ↦ let e = if_so before in ground arith
      | inr (inl same) ↦ ground arith
      | inr (inr nothing) ↦ absurd nothing
    ];
  }

  fresh-IsGrounded :
      (h : Hit)
      → In h hits
      → IsGrounded (with_port h.port (record { ip = h.ip; ports = []; likely = false }))
  fresh-IsGrounded h answer =
      with_port-IsGrounded h.port h.ip [] false answer (λ p none. absurd none) (λ e. cc)
        (λ none. absurd none)

  more-IsGrounded :
      (h : Hit) (d : Device)
      → In h hits
      → d.ip ≡ h.ip
      → IsGrounded d
      → IsGrounded (with_port h.port d)
  more-IsGrounded h d answer same g =
      with_port-IsGrounded h.port d.ip d.ports d.likely
        (subst (λ ip. Answered ip h.port) (sym same) answer) g.answered g.likely_only g.likely_if

  add_hit-IsGrounded :
      (h : Hit) (devices : List Device)
      → In h hits
      → All IsGrounded devices
      → All IsGrounded (add_hit h devices)
  unfolding add_hit
  add_hit-IsGrounded h [] answer all = (fresh-IsGrounded h answer, tt)
  add_hit-IsGrounded h (d ∷ devices) answer (g, all) =
      elim (text_eq.dec d.ip h.ip)
          as (λ t. text_eq.dec d.ip h.ip ≡ t → All IsGrounded (add_hit h (d ∷ devices))) [
            | yes same ↦ λ e. rw e (more-IsGrounded h d answer same g, all)
            | no differ ↦ λ e. rw e (g, add_hit-IsGrounded h devices answer all)
          ]
        refl

  merge_hits-IsGrounded :
      (some_hits : List Hit) (devices : List Device)
      → ((h : Hit) → In h some_hits → In h hits)
      → All IsGrounded devices
      → All IsGrounded (merge_hits some_hits devices)
  unfolding merge_hits
  merge_hits-IsGrounded [] devices part all = all
  merge_hits-IsGrounded (h ∷ some_hits) devices part all =
      merge_hits-IsGrounded some_hits (add_hit h devices) (λ k there. part k (inr there))
        (add_hit-IsGrounded h devices (part h (inl refl)) all)

  sort_ports-IsGrounded : (d : Device) → IsGrounded d → IsGrounded (sort_ports d)
  sort_ports-IsGrounded d g = record {
    answered = λ port h. g.answered port ((In-sort ltb port d.ports).0 h);
    some_port = (g.some_port.0, (In-sort ltb g.some_port.0 d.ports).1 g.some_port.1);
    likely_only = λ e. (In-sort ltb 9100 d.ports).1 (g.likely_only e);
    likely_if = λ h. g.likely_if ((In-sort ltb 9100 d.ports).0 h);
  }

  sorted-IsGrounded :
      (devices : List Device) (d : Device)
      → All IsGrounded devices
      → In d (map sort_ports devices)
      → IsGrounded d
  sorted-IsGrounded [] d all h = absurd h
  sorted-IsGrounded (x ∷ devices) d (g, all) (inl e) =
      subst IsGrounded (sym e) (sort_ports-IsGrounded x g)
  sorted-IsGrounded (x ∷ devices) d (g, all) (inr h) = sorted-IsGrounded devices d all h

  devices_of-IsGrounded : (d : Device) → In d (devices_of hits) → IsGrounded d
  unfolding devices_of
  devices_of-IsGrounded d found =
      sorted-IsGrounded (merge_hits hits []) d (merge_hits-IsGrounded hits [] (λ h there. there) tt)
        ((In-sort ranks_first d (map sort_ports (merge_hits hits []))).0 found)

  -- `Addr` finds a port of the device: one that answered, and 9100 just where the device is likely.
  abbrev pub AddrIsGood : Device → Type 0
  AddrIsGood d =
      (port : ℕ) × (addr_port d.ports ≡ some port)
      × Answered d.ip port
      × (d.likely ≡ nat_eqb port 9100)

  likely-AddrIsGood :
      (ip : Text) (port : ℕ) (ports : List ℕ) (likely : Bool)
      → IsGrounded (record { ip = ip; ports = port ∷ ports; likely = likely })
      → AddrIsGood (record { ip = ip; ports = port ∷ ports; likely = likely })
  unfolding addr_port
  likely-AddrIsGood ip port ports likely g =
      let (only_if, if_so) = any-In (port ∷ ports) in
      elim (Bool-cases (any is_raw (port ∷ ports))) [
        | inl raw ↦
            let there = only_if raw in (9100, rw raw refl, g.answered 9100 there, g.likely_if there)
        | inr lesser ↦
            let no_raw : nat_eqb port 9100 ≡ false = any-head port ports lesser in
            let unlikely : likely ≡ false = elim (Bool-cases likely) [
              | inl yes_likely ↦ absurd (let e = if_so (g.likely_only yes_likely) in cc)
              | inr not_likely ↦ not_likely
            ] in
            (port, rw lesser refl, g.answered port (inl refl), unlikely ∙ sym no_raw)
      ]

  -- Every device that a scan finds can be printed to: the address that is used has a port that answered,
  -- and this is the raw port 9100 just where the device is shown as a likely printer.
  pub devices_of-AddrIsGood : (d : Device) → In d (devices_of hits) → AddrIsGood d
  devices_of-AddrIsGood d found = good d.ip d.ports d.likely (devices_of-IsGrounded d found)
    where
      good :
          (ip : Text) (ports : List ℕ) (likely : Bool)
          → IsGrounded (record { ip = ip; ports = ports; likely = likely })
          → AddrIsGood (record { ip = ip; ports = ports; likely = likely })
      good ip [] likely g = absurd g.some_port.1
      good ip (port ∷ ports) likely g = likely-AddrIsGood ip port ports likely g
