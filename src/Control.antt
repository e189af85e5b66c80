-- ===== src/Control.antt =====
-- pack_control and unpack_control of control.c: the packets of nsctl. A string is the list of its
-- characters, without the terminator. A pointer into the local `pkt` of unpack_control is its offset
-- there, and the bytes of `pkt`, which is gone when unpack_control returns, are returned beside. A
-- length below 0 is not considered.
pub mod RoundTrip
mod Tests
use Prim.Native.Nat.{min}
use l2tpns.Prelude.{
  ℕ, zero, suc, ◌+◌, ◌%◌, ◌*◌, List, [], ◌∷◌, ◌++◌, Option, none, some, Bool, not, ◌||◌, ltb, ◌==◌,
  if◌then◌else◌, length, take, drop,
}

-- NSCTL_MAGIC, its high byte first
abbrev pub magic_high : ℕ
magic_high = 0x90

abbrev pub magic_low : ℕ
magic_low = 0x13

-- `sizeof(pkt)`
abbrev pub max_pkt_sz : ℕ
max_pkt_sz = 4096

-- `sizeof(arg.value)`
abbrev pub max_value : ℕ
max_value = 511

abbrev pub with_arg : ℕ → List ℕ → Option (List ℕ) → Option (List ℕ)
with_arg len bytes none = none
with_arg len bytes (some rest) = some (len ∷ bytes ++ rest)

-- The loop of pack_control with the terminator: what is written from `p` on. `value` is what
-- `arg.value` holds, which the next argument overwrites in part; `arg.len` is a byte.
pub pack_args : ℕ → ℕ → List ℕ → List (List ℕ) → Option (List ℕ)
pack_args len sz value [] = if ltb len (sz + 1) then none else some (0xff ∷ [])
pack_args len sz value (a ∷ argv) =
    let s = min (length a) max_value in
    let arg_len = s % 256 in
    let value' = take arg_len a ++ drop arg_len value in
    let rest = pack_args len (sz + (s + 1)) value' argv in
    if ltb len (sz + (s + 1)) then none else with_arg arg_len (take s value') rest

abbrev pub with_header : ℕ → ℕ → Option (List ℕ) → Option (List ℕ)
with_header type argc none = none
with_header type argc (some args) = some (magic_high ∷ magic_low ∷ type ∷ argc ∷ args)

-- The bytes of the packet, whose number is the value returned; `none` is -1. `stack` is what
-- `arg.value` holds when the function is entered.
pub pack_control : List ℕ → ℕ → ℕ → List (List ℕ) → Option (List ℕ)
unfolding pack_args
pack_control stack len type argv =
    let len = min len max_pkt_sz in
    let argc = min (length argv) 0xff in
    with_header (type % 256) argc (pack_args len 4 stack (take argc argv))

pub data Error : Type 0 where
  short : Error
  long : Error
  magic : Error
  type : Error

-- The type, the bytes of `pkt` at the return, and the offsets in it that `argv` holds.
pub data Unpacked : Type 0 where
  failed : Error → Unpacked
  parsed : ℕ → List ℕ → List ℕ → Unpacked

-- What the loop of unpack_control makes of the bytes from `p` on: their final contents, and the
-- offsets of the arguments.
pub data Args : Type 0 where
  bad : Error → Args
  args : List ℕ → List ℕ → Args

abbrev pub before_args : ℕ → List ℕ → Args → Args
before_args p bytes (bad e) = bad e
before_args p bytes (args memory argv) = args (0 ∷ bytes ++ memory) (p ∷ argv)

abbrev pub at_end : List ℕ → Args
at_end [] = args (0 ∷ []) []
at_end (b ∷ bytes) = bad long

-- The first argument counts the arguments to come, the second is the offset of `p`, `sz`.
pub unpack_args : ℕ → ℕ → List ℕ → Args
unpack_args n sz [] = bad short
unpack_args zero sz (s ∷ p) = if not (s == 0xff) then bad short else at_end p
unpack_args (suc n) sz (s ∷ p) =
    let rest = unpack_args n (sz + 1 + s) (drop s p) in
    if ltb (length p) s then bad short else before_args (sz + 1) (take s p) rest

-- NSCTL_REQ_LOAD, NSCTL_REQ_UNLOAD, NSCTL_REQ_HELP, NSCTL_REQ_CONTROL, NSCTL_RES_OK, NSCTL_RES_ERR
unfoldable pub known_type : ℕ → Bool
known_type t = t == 0x11 || t == 0x12 || t == 0x13 || t == 0x14 || t == 0x21 || t == 0x22

abbrev pub unpacked : List ℕ → ℕ → Args → Unpacked
unpacked header t (bad e) = failed e
unpacked header t (args memory argv) = parsed t (header ++ memory) argv

-- `pkt`, from its magic number on.
pub unpack_packet : List ℕ → Unpacked
unfolding unpack_args known_type
unpack_packet (h ∷ l ∷ t ∷ argc ∷ p) =
    if not (h * 256 + l == magic_high * 256 + magic_low)
    then failed magic
    else if not (known_type t)
    then failed type
    else unpacked (h ∷ l ∷ t ∷ argc ∷ []) t (unpack_args argc 4 p)
unpack_packet bytes = failed short

pub unpack_control : List ℕ → ℕ → Unpacked
unfolding unpack_packet
unpack_control data_bytes len =
    if ltb len 4
    then failed short
    else if ltb max_pkt_sz len
    then failed long
    else unpack_packet (take len data_bytes)

-- The string at an address, by the bytes from there on.
pub c_string : List ℕ → List ℕ
c_string [] = []
c_string (zero ∷ bytes) = []
c_string (suc c ∷ bytes) = suc c ∷ c_string bytes
