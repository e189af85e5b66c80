-- ===== src/IpFilter.antt =====
-- ip_filter_port, ip_filter_flag and ip_filter of l2tpns.c: access lists.
-- A packet is the list of its bytes, a byte behind its end reading as 0. Addresses are numbers in
-- network byte order, as the rules hold them. A list of rules ends at a rule with `action` 0.
pub mod Reading
pub mod Match
pub mod Find
mod Tests
use Prim.Native.Nat.{bit_and}
use l2tpns.Prelude.{
  ℕ, ◌+◌, ◌-◌, ◌*◌, ◌/◌, ◌%◌, ◌^◌, List, [], ◌∷◌, Option, none, some, Bool, true, false, not, ◌&&◌,
  ◌||◌, ltb, leb, ◌==◌, if◌then◌else◌, get_or, add32,
}

-- `ip_filter_portt`
pub record PortTest : Type 0 where
  pub op : ℕ
  pub port : ℕ
  pub port2 : ℕ

-- `ip_filter_rulet`
pub record Rule : Type 0 where
  pub action : ℕ
  pub proto : ℕ
  pub src_ip : ℕ
  pub src_wild : ℕ
  pub src_ports : PortTest
  pub dst_ip : ℕ
  pub dst_wild : ℕ
  pub dst_ports : PortTest
  pub frag : ℕ
  pub tcp_flag_op : ℕ
  pub tcp_sflags : ℕ
  pub tcp_cflags : ℕ
  pub counter : ℕ

abbrev pub deny : ℕ
deny = 1

abbrev pub permit : ℕ
permit = 2

abbrev pub ip_proto_tcp : ℕ
ip_proto_tcp = 6

abbrev pub ip_proto_udp : ℕ
ip_proto_udp = 17

abbrev pub broadcast : ℕ
broadcast = 2 ^ 32 - 1

pub ip_filter_port : PortTest → ℕ → Bool
ip_filter_port p port =
    if p.op == 1
    then port == p.port
    else if p.op == 2
    then not (port == p.port)
    else if p.op == 3
    then ltb p.port port
    else if p.op == 4
    then ltb port p.port
    else p.op == 5 && leb p.port port && leb port p.port2

-- `flags & sflags` and `~flags & cflags`; `flags` is a byte.
abbrev pub set_of : ℕ → ℕ → ℕ
set_of flags sflags = bit_and flags sflags

abbrev pub clear_of : ℕ → ℕ → ℕ
clear_of flags cflags = bit_and (255 - flags) cflags

pub ip_filter_flag : ℕ → ℕ → ℕ → ℕ → Bool
ip_filter_flag op sflags cflags flags =
    if op == 1
    then not (set_of flags sflags == 0) || not (clear_of flags cflags == 0)
    else if op == 2
    then set_of flags sflags == sflags && clear_of flags cflags == cflags
    else op == 3 && not (bit_and flags 0x14 == 0) && not (clear_of flags 0x02 == 0)

-- The local variables that ip_filter reads from the packet.
pub record Header : Type 0 where
  pub frag_offset : ℕ
  pub proto : ℕ
  pub src_ip : ℕ
  pub dst_ip : ℕ
  pub src_port : ℕ
  pub dst_port : ℕ
  pub flags : ℕ

abbrev pub be16 : List ℕ → ℕ → ℕ
be16 buf i = get_or buf i 0 * 256 + get_or buf (i + 1) 0

abbrev pub be32 : List ℕ → ℕ → ℕ
be32 buf i = be16 buf i * 2 ^ 16 + be16 buf (i + 2)

-- The part of ip_filter before the loop; `none` is its early `return 0`.
pub read_header : List ℕ → ℕ → Option Header
read_header buf len =
    let frag_offset = be16 buf 6 % 2 ^ 13 in
    let proto = get_or buf 9 0 in
    let l = get_or buf 0 0 % 16 * 4 in
    let is_tcp = proto == ip_proto_tcp in
    let bare : Header = record {
      frag_offset = frag_offset;
      proto = proto;
      src_ip = be32 buf 12;
      dst_ip = be32 buf 16;
      src_port = 0;
      dst_port = 0;
      flags = 0;
    } in
    let ports = record bare { src_port = be16 buf l; dst_port = be16 buf (l + 2) } in
    let tcp = record ports { flags = get_or buf (l + 13) 0 % 2 ^ 6 } in
    if ltb len 20 || not (get_or buf 0 0 / 16 == 4)
    then none
    else if not (frag_offset == 0 && (is_tcp || proto == ip_proto_udp))
    then some bare
    else if ltb len (l + 4)
    then none
    else if not is_tcp
    then some ports
    else if ltb len (l + 14)
    then none
    else some tcp

-- One of the two address tests.
pub address_matches : ℕ → ℕ → ℕ → Bool
address_matches ip rule_ip wild =
    wild == broadcast || bit_and ip (broadcast - wild) == bit_and rule_ip (broadcast - wild)

-- The part of the loop's body behind the address tests.
pub layer4_matches : Header → Rule → Bool
layer4_matches h r =
    let is_tcp = h.proto == ip_proto_tcp in
    if not (h.frag_offset == 0)
    then not (
        r.action == deny
        && (not (r.src_ports.op == 0) || not (r.dst_ports.op == 0) || not (r.tcp_flag_op == 0)))
    else if not (r.frag == 0)
    then false
    else if not (is_tcp || h.proto == ip_proto_udp)
    then true
    else not (not (r.src_ports.op == 0) && not (ip_filter_port r.src_ports h.src_port))
      && not (not (r.dst_ports.op == 0) && not (ip_filter_port r.dst_ports h.dst_port))
      && not (
          is_tcp
          && not (r.tcp_flag_op == 0)
          && not (ip_filter_flag r.tcp_flag_op r.tcp_sflags r.tcp_cflags h.flags))

-- No `continue` of the loop's body is reached.
pub rule_matches : Header → Rule → Bool
rule_matches h r =
    (r.proto == 0 || h.proto == r.proto)
    && address_matches h.src_ip r.src_ip r.src_wild
    && address_matches h.dst_ip r.dst_ip r.dst_wild
    && layer4_matches h r

abbrev pub count_match : Rule → Rule
count_match r = record r { counter = add32 r.counter 1 }

-- The loop: the decision, and the rules with the counter of the match advanced.
pub scan_rules : Header → List Rule → Bool × List Rule
scan_rules h [] = (false, [])
scan_rules h (r ∷ rules) =
    let (decision, rest) = scan_rules h rules in
    if r.action == 0
    then (false, r ∷ rules)
    else if rule_matches h r
    then (r.action == permit, count_match r ∷ rules)
    else (decision, r ∷ rest)

abbrev pub filter_header : Option Header → List Rule → Bool × List Rule
filter_header none rules = (false, rules)
filter_header (some h) rules = scan_rules h rules

pub ip_filter : List ℕ → ℕ → List Rule → Bool × List Rule
unfolding scan_rules rule_matches layer4_matches address_matches ip_filter_port ip_filter_flag
    read_header
ip_filter buf len rules = filter_header (read_header buf len) rules
