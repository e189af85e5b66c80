-- ===== src/IpFilter/Tests.antt =====
-- Runs of the access lists on a small packet, and instances of their theorems.
use l2tpns.Prelude.{ℕ, ◌≡◌, ◌⊎◌, refl, List, [], ◌∷◌, some, true, false}
use l2tpns.IpFilter.{PortTest, Rule, Header, ip_filter}
use l2tpns.IpFilter.Find.{find_filter}
use l2tpns.IpFilter.Match.{Decides, ip_filter-Decides}
use l2tpns.IpFilter.Reading.{Unreadable, FieldsOf}

abbrev any_port : PortTest
any_port = record { op = 0; port = 0; port2 = 0 }

-- "permit udp any any eq 53", then the end of the list.
abbrev dns_rule : Rule
dns_rule = record {
  action = 2;
  proto = 17;
  src_ip = 0;
  src_wild = 0xffff_ffff;
  src_ports = any_port;
  dst_ip = 0;
  dst_wild = 0xffff_ffff;
  dst_ports = record { op = 1; port = 53; port2 = 0 };
  frag = 0;
  tcp_flag_op = 0;
  tcp_sflags = 0;
  tcp_cflags = 0;
  counter = 4;
}

abbrev end_rule : Rule
end_rule = record dns_rule { action = 0 }

-- UDP from 10.0.0.1 port 1024 to 10.0.0.2 port 53.
abbrev dns_packet : List ℕ
dns_packet =
    0x45 ∷ 0 ∷ 0 ∷ 28 ∷ 0 ∷ 0 ∷ 0 ∷ 0 ∷ 64 ∷ 17 ∷ 0 ∷ 0 ∷ 10 ∷ 0 ∷ 0 ∷ 1 ∷ 10 ∷ 0 ∷ 0 ∷ 2 ∷ 4 ∷ 0
    ∷ 0 ∷ 53 ∷ 0 ∷ 8 ∷ 0 ∷ 0 ∷ []

dns_permitted :
    ip_filter dns_packet 28 (dns_rule ∷ end_rule ∷ [])
    ≡ (true, record dns_rule { counter = 5 } ∷ end_rule ∷ [])
unfolding ip_filter
dns_permitted = refl

short_denied :
    ip_filter dns_packet 22 (dns_rule ∷ end_rule ∷ []) ≡ (false, dns_rule ∷ end_rule ∷ [])
unfolding ip_filter
short_denied = refl

ip_filter-Decides_example :
    (Unreadable dns_packet 28
      × (ip_filter dns_packet 28 (dns_rule ∷ end_rule ∷ []) ≡ (false, dns_rule ∷ end_rule ∷ [])))
    ⊎ ((h : Header) × FieldsOf dns_packet h
        × (¬ Unreadable dns_packet 28)
        × Decides h (dns_rule ∷ end_rule ∷ []) (ip_filter dns_packet 28 (dns_rule ∷ end_rule ∷ [])))
ip_filter-Decides_example = ip_filter-Decides dns_packet 28 (dns_rule ∷ end_rule ∷ [])

abbrev dns_header : Header
dns_header = record {
  frag_offset = 0;
  proto = 17;
  src_ip = 0x0a00_0001;
  dst_ip = 0x0a00_0002;
  src_port = 1024;
  dst_port = 53;
  flags = 0;
}

-- A free entry, "a", a free entry, "b".
abbrev names : List (List ℕ)
names = [] ∷ (97 ∷ []) ∷ [] ∷ (98 ∷ []) ∷ []

second_name : find_filter names (98 ∷ []) ≡ some 3
unfolding find_filter
second_name = refl

new_name : find_filter names (99 ∷ []) ≡ some 0
unfolding find_filter
new_name = refl
