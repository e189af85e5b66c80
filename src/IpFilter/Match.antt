-- ===== src/IpFilter/Match.antt =====
-- ip_filter of l2tpns.c decides by the first rule that applies.
use Prim.Native.Nat.{bit_and}
use mathlib.Core.Path.{subst}
use l2tpns.Prelude.{
  ℕ, ◌-◌, ◌≤◌, ◌<◌, ◌≡◌, ◌≢◌, ◌⊎◌, ◌↔◌, inl, inr, refl, ap, List, [], ◌∷◌, ◌++◌, Bool, true, false,
  ◌==◌, arith, Bool-cases, Option-cases,
}
use l2tpns.IpFilter.{
  PortTest, Rule, Header, deny, permit, ip_proto_tcp, ip_proto_udp, broadcast, ip_filter_port,
  ip_filter_flag, address_matches, layer4_matches, rule_matches, count_match, scan_rules,
  read_header, ip_filter, set_of, clear_of,
}
use l2tpns.IpFilter.Reading.{Unreadable, FieldsOf, IsRead, read_header-IsRead}

-- A port passes a test: no test, or one of the five comparisons.
abbrev pub PortPasses : PortTest → ℕ → Type 0
PortPasses t p =
    (t.op ≡ 0)
    ⊎ ((t.op ≡ 1) × (p ≡ t.port)
        ⊎ ((t.op ≡ 2) × (p ≢ t.port)
            ⊎ ((t.op ≡ 3) × (t.port < p)
                ⊎ ((t.op ≡ 4) × (p < t.port) ⊎ (t.op ≡ 5) × (t.port ≤ p) × (p ≤ t.port2)))))

-- An address agrees with a rule in every bit that is not wild.
abbrev pub AddressPasses : ℕ → ℕ → ℕ → Type 0
AddressPasses ip rule_ip wild =
    (wild ≡ broadcast) ⊎ (bit_and ip (broadcast - wild) ≡ bit_and rule_ip (broadcast - wild))

-- TCP flags pass: no test, or any of the named bits, all of them, or an established connection.
abbrev pub FlagsPass : Rule → ℕ → Type 0
FlagsPass r flags =
    (r.tcp_flag_op ≡ 0)
    ⊎ ((r.tcp_flag_op ≡ 1) × ((set_of flags r.tcp_sflags ≢ 0) ⊎ (clear_of flags r.tcp_cflags ≢ 0))
        ⊎ ((r.tcp_flag_op ≡ 2)
              × (set_of flags r.tcp_sflags ≡ r.tcp_sflags)
              × (clear_of flags r.tcp_cflags ≡ r.tcp_cflags)
            ⊎ (r.tcp_flag_op ≡ 3) × (bit_and flags 0x14 ≢ 0) × (clear_of flags 0x02 ≢ 0)))

-- A later fragment has no ports: a deny rule that names any does not concern it.
abbrev pub FragmentPasses : Rule → Type 0
FragmentPasses r =
    (r.action ≢ deny) ⊎ (r.src_ports.op ≡ 0) × (r.dst_ports.op ≡ 0) × (r.tcp_flag_op ≡ 0)

-- A packet with its layer 4 header.
abbrev pub PacketPasses : Header → Rule → Type 0
PacketPasses h r =
    (h.proto ≢ ip_proto_tcp) × (h.proto ≢ ip_proto_udp)
    ⊎ PortPasses r.src_ports h.src_port
      × PortPasses r.dst_ports h.dst_port
      × ((h.proto ≢ ip_proto_tcp) ⊎ FlagsPass r h.flags)

abbrev pub Layer4Passes : Header → Rule → Type 0
Layer4Passes h r =
    (h.frag_offset ≢ 0) × FragmentPasses r ⊎ (h.frag_offset ≡ 0) × (r.frag ≡ 0) × PacketPasses h r

pub record Applies (h : Header) (r : Rule) : Type 0 where
  pub proto : (r.proto ≡ 0) ⊎ (h.proto ≡ r.proto)
  pub source : AddressPasses h.src_ip r.src_ip r.src_wild
  pub destination : AddressPasses h.dst_ip r.dst_ip r.dst_wild
  pub layer4 : Layer4Passes h r

port_lem : (t : PortTest) (p : ℕ) → PortPasses t p ↔ ((t.op ≡ 0) ⊎ (ip_filter_port t p ≡ true))
unfolding ip_filter_port
port_lem t p = (λ h. ground arith, λ h. ground arith)

flag_lem :
    (r : Rule) (flags : ℕ)
    → FlagsPass r flags ↔ (
        (r.tcp_flag_op ≡ 0) ⊎ (ip_filter_flag r.tcp_flag_op r.tcp_sflags r.tcp_cflags flags ≡ true))
unfolding ip_filter_flag
flag_lem r flags = (λ h. ground arith, λ h. ground arith)

address_lem :
    (ip rule_ip wild : ℕ) → AddressPasses ip rule_ip wild ↔ (address_matches ip rule_ip wild ≡ true)
unfolding address_matches
address_lem ip rule_ip wild = (λ h. ground arith, λ h. ground arith)

layer4_lem : (h : Header) (r : Rule) → Layer4Passes h r ↔ (layer4_matches h r ≡ true)
unfolding layer4_matches
layer4_lem h r = (
  λ k.
      ground (
        arith,
        port_lem r.src_ports h.src_port,
        port_lem r.dst_ports h.dst_port,
        flag_lem r h.flags,
      ),
  λ k.
      ground (
        arith,
        port_lem r.src_ports h.src_port,
        port_lem r.dst_ports h.dst_port,
        flag_lem r h.flags,
      ),
)

-- The body of the loop reaches its end for exactly the rules that apply.
pub rule_matches-Applies : (h : Header) (r : Rule) → Applies h r ↔ (rule_matches h r ≡ true)
unfolding rule_matches
rule_matches-Applies h r =
    let source = address_lem h.src_ip r.src_ip r.src_wild in
    let destination = address_lem h.dst_ip r.dst_ip r.dst_wild in
    let layer4 = layer4_lem h r in
    (
      λ a.
          ground
            (arith, a.proto, source.0 a.source, destination.0 a.destination, layer4.0 a.layer4),
      λ m. record {
        proto = ground arith;
        source = source.1 (ground arith);
        destination = destination.1 (ground arith);
        layer4 = layer4.1 (ground arith);
      },
    )

-- None of the rules applies, and none ends the list.
abbrev pub PassedOver : Header → List Rule → Type 0
PassedOver h [] = Unit {0}
PassedOver h (r ∷ rules) = (¬ Applies h r) × (r.action ≢ 0) × PassedOver h rules

-- The list begins with its end.
abbrev pub AtEnd : List Rule → Type 0
AtEnd [] = Unit {0}
AtEnd (r ∷ rules) = r.action ≡ 0

-- How a list of rules decides a packet: by the first rule that applies, which is counted, or by
-- none, which denies.
pub data Decides (h : Header) (rules : List Rule) : Bool × List Rule → Type 0 where
  by_rule :
      (before after : List Rule) (r : Rule)
      → rules ≡ before ++ r ∷ after
      → PassedOver h before
      → r.action ≢ 0
      → Applies h r
      → Decides h rules (r.action == permit, before ++ count_match r ∷ after)
  by_default :
      (before after : List Rule)
      → rules ≡ before ++ after
      → PassedOver h before
      → AtEnd after
      → Decides h rules (false, rules)

Decides-behind :
    (h : Header) (r : Rule) (rules : List Rule) (out : Bool × List Rule)
    → ¬ Applies h r
    → r.action ≢ 0
    → Decides h rules out
    → Decides h (r ∷ rules) (out.0, r ∷ out.1)
Decides-behind h r rules out n a (by_rule before after q e p b m) =
    by_rule (r ∷ before) after q (ap (λ l. r ∷ l) e) (n, a, p) b m
Decides-behind h r rules out n a (by_default before after e p t) =
    by_default (r ∷ before) after (ap (λ l. r ∷ l) e) (n, a, p) t

pub scan_rules-Decides : (h : Header) (rules : List Rule) → Decides h rules (scan_rules h rules)
unfolding scan_rules
scan_rules-Decides h [] = by_default [] [] refl tt tt
scan_rules-Decides h (r ∷ rules) = elim (Bool-cases (r.action == 0)) [
  | inl end ↦ rw end (by_default [] (r ∷ rules) refl tt (ground arith))
  | inr live ↦ elim (Bool-cases (rule_matches h r)) [
    | inl hit ↦
        rw (live, hit)
          (by_rule [] rules r refl tt (ground arith) ((rule_matches-Applies h r).1 hit))
    | inr miss ↦
        rw (live, miss)
          (Decides-behind h r rules (scan_rules h rules)
            (λ a. ground (arith, (rule_matches-Applies h r).0 a)) (ground arith)
            (scan_rules-Decides h rules))
  ]
]

-- ip_filter denies a packet of which the IPv4 header, or the ports or TCP flags of an
-- unfragmented TCP or UDP packet, are cut off, and one that is no IPv4, and leaves the rules
-- alone; any other it decides by the first rule that applies to its fields, permitting it if
-- that rule permits and counting the match in that rule only, and denies it with no rule changed
-- if none applies.
pub ip_filter-Decides :
    (buf : List ℕ) (len : ℕ) (rules : List Rule)
    → (Unreadable buf len × (ip_filter buf len rules ≡ (false, rules)))
      ⊎ ((h : Header) × FieldsOf buf h
          × (¬ Unreadable buf len)
          × Decides h rules (ip_filter buf len rules))
unfolding ip_filter
ip_filter-Decides buf len rules =
    let read = read_header-IsRead buf len in
    elim (Option-cases (read_header buf len)) [
      | inl e ↦ inl (subst (IsRead buf len) e read, rw e)
      | inr (h, e) ↦
          let (whole, fields) = subst (IsRead buf len) e read in
          inr (h, fields, whole, rw e (scan_rules-Decides h rules))
    ]
