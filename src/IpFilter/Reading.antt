-- ===== src/IpFilter/Reading.antt =====
-- What the start of ip_filter of l2tpns.c reads of a packet.
use l2tpns.Prelude.{
  ℕ, ◌+◌, ◌*◌, ◌/◌, ◌%◌, ◌^◌, ◌<◌, ◌≡◌, ◌≢◌, ◌⊎◌, inl, inr, refl, List, Option, none, some, not,
  ◌&&◌, ◌||◌, ltb, ◌==◌, get_or, arith, Bool-cases,
}
use l2tpns.IpFilter.{Header, ip_proto_tcp, ip_proto_udp, read_header, be16, be32}

-- A packet of TCP or UDP, and no later fragment: it has ports.
abbrev pub HasPorts : List ℕ → Type 0
HasPorts buf =
    (be16 buf 6 % 2 ^ 13 ≡ 0) × ((get_or buf 9 0 ≡ ip_proto_tcp) ⊎ (get_or buf 9 0 ≡ ip_proto_udp))

-- How long the header of a packet says that it is.
abbrev pub header_length : List ℕ → ℕ
header_length buf = get_or buf 0 0 % 16 * 4

-- The packet has no IPv4 header, is of another version, or ends before its ports or TCP flags.
abbrev pub Unreadable : List ℕ → ℕ → Type 0
Unreadable buf len =
    (len < 20)
    ⊎ ((get_or buf 0 0 / 16 ≢ 4)
        ⊎ HasPorts buf
          × ((len < header_length buf + 4)
              ⊎ (get_or buf 9 0 ≡ ip_proto_tcp) × (len < header_length buf + 14)))

-- The fields of a packet, at their places in it.
pub record FieldsOf (buf : List ℕ) (h : Header) : Type 0 where
  pub frag_offset : h.frag_offset ≡ be16 buf 6 % 2 ^ 13
  pub proto : h.proto ≡ get_or buf 9 0
  pub source : h.src_ip ≡ be32 buf 12
  pub destination : h.dst_ip ≡ be32 buf 16
  pub src_port : HasPorts buf → h.src_port ≡ be16 buf (header_length buf)
  pub dst_port : HasPorts buf → h.dst_port ≡ be16 buf (header_length buf + 2)
  pub flags :
      HasPorts buf
      → get_or buf 9 0 ≡ ip_proto_tcp
      → h.flags ≡ get_or buf (header_length buf + 13) 0 % 2 ^ 6

-- The start of ip_filter reads the fields, or the packet is unreadable.
abbrev pub IsRead : List ℕ → ℕ → Option Header → Type 0
IsRead buf len none = Unreadable buf len
IsRead buf len (some h) = (¬ Unreadable buf len) × FieldsOf buf h

pub read_header-IsRead : (buf : List ℕ) (len : ℕ) → IsRead buf len (read_header buf len)
unfolding read_header
read_header-IsRead buf len = elim (Bool-cases (ltb len 20 || not (get_or buf 0 0 / 16 == 4))) [
  | inl bad ↦ rw bad (ground arith)
  | inr good ↦
      elim (Bool-cases (
        be16 buf 6 % 2 ^ 13 == 0
        && (get_or buf 9 0 == ip_proto_tcp || get_or buf 9 0 == ip_proto_udp))) [
          | inr bare ↦
              let none_ : ¬ HasPorts buf = λ h. ground arith in
              rw (good, bare)
                (
                  λ u. ground arith,
                  record {
                    frag_offset = refl;
                    proto = refl;
                    source = refl;
                    destination = refl;
                    src_port = λ h. absurd (none_ h);
                    dst_port = λ h. absurd (none_ h);
                    flags = λ h e. absurd (none_ h);
                  },
                )
          | inl ports ↦ elim (Bool-cases (ltb len (header_length buf + 4))) [
            | inl cut ↦ rw (good, ports, cut) (inr (inr (ground arith, inl (ground arith))))
            | inr enough ↦ elim (Bool-cases (get_or buf 9 0 == ip_proto_tcp)) [
              | inr udp ↦
                  rw (good, ports, enough, udp)
                    (
                      λ u. ground arith,
                      record {
                        frag_offset = refl;
                        proto = refl;
                        source = refl;
                        destination = refl;
                        src_port = λ h. refl;
                        dst_port = λ h. refl;
                        flags = λ h e. ground arith;
                      },
                    )
              | inl tcp ↦ elim (Bool-cases (ltb len (header_length buf + 14))) [
                | inl cut ↦
                    rw (good, ports, enough, tcp, cut)
                      (inr (inr (ground arith, inr (ground arith))))
                | inr all ↦
                    rw (good, ports, enough, tcp, all)
                      (
                        λ u. ground arith,
                        record {
                          frag_offset = refl;
                          proto = refl;
                          source = refl;
                          destination = refl;
                          src_port = λ h. refl;
                          dst_port = λ h. refl;
                          flags = λ h e. refl;
                        },
                      )
              ]
            ]
          ]
        ]
]
