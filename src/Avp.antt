-- ===== src/Avp.antt =====
-- The AVPs of L2TP control messages in l2tpns.c: control16 and its like, which write them, the loop
-- of processudp that reads them, unhide_value and build_chap_response.
-- A message is the part of its buffer behind the header, so `length` of a `controlt` is 12 more. A
-- pointer into a packet is the list of the bytes from there on, those that follow the packet in
-- memory included; the bytes behind that list are 0. Texts for the log and for the peer (`msg`,
-- `disc_reason`) are left out. MD5 and atol are functions of `Env`.
pub mod Take
pub mod Read
pub mod Messages
pub mod RoundTrip
pub mod Writers
pub mod Answers
pub mod Sent
pub mod Loop
mod Tests
use Prim.Native.Nat.{bit_xor}
use l2tpns.Prelude.{
  ℕ, zero, suc, ◌+◌, ◌-◌, ◌*◌, ◌/◌, ◌%◌, ◌^◌, List, [], ◌∷◌, ◌++◌, Option, none, some, Bool, true,
  false, not, ◌&&◌, ◌||◌, ltb, leb, ◌==◌, if◌then◌else◌, length, take, drop, get_or,
}

-- ntohs and ntohl of what a pointer points to
abbrev pub get16 : List ℕ → ℕ
get16 p = get_or p 0 0 * 256 + get_or p 1 0

abbrev pub get32 : List ℕ → ℕ
get32 p = get16 p * 65536 + get16 (drop 2 p)

-- htons and htonl
abbrev pub put16 : ℕ → List ℕ
put16 n = n / 256 % 256 ∷ n % 256 ∷ []

abbrev pub put32 : ℕ → List ℕ
put32 n = put16 (n / 65536) ++ put16 n

-- The word with the M bit and the length.
abbrev pub mandatory_bit : Bool → ℕ
mandatory_bit m = if m then 0x8000 else 0

unfoldable pub control16 : List ℕ → ℕ → ℕ → Bool → List ℕ
control16 c avp val m =
    c ++ (put16 (if m then 0x8008 else 0x0008) ++ put16 0 ++ put16 avp ++ put16 val)

unfoldable pub control32 : List ℕ → ℕ → ℕ → Bool → List ℕ
control32 c avp val m =
    c ++ (put16 (if m then 0x800A else 0x000A) ++ put16 0 ++ put16 avp ++ put32 val)

unfoldable pub controls : List ℕ → ℕ → List ℕ → Bool → List ℕ
controls c avp val m =
    c ++ (put16 (mandatory_bit m + length val + 6) ++ put16 0 ++ put16 avp ++ val)

-- `val` has `len` bytes.
unfoldable pub controlb : List ℕ → ℕ → List ℕ → Bool → List ℕ
controlb c avp val m =
    c ++ (put16 (mandatory_bit m + length val + 6) ++ put16 0 ++ put16 avp ++ val)

-- The free list of controls does not show: the whole control is written again.
unfoldable pub controlnew : ℕ → List ℕ
unfolding control16
controlnew mtype = control16 [] 0 mtype true

-- What the reading uses but does not change.
pub record Env : Type 0 where
  pub md5 : List ℕ → List ℕ
  pub atol : List ℕ → ℕ
  pub l2tp_secret : List ℕ
  pub isremotelns : Bool

-- The loop of unhide_value: `digest` has the bytes that are not used yet, and `last` is the block
-- that is being decoded.
pub unhide_from : Env → List ℕ → List ℕ → List ℕ → ℕ → List ℕ
unhide_from env digest last value zero = value
unhide_from env digest last [] (suc len) = []
unhide_from env [] last (v ∷ value) (suc len) =
    let digest' = env.md5 (env.l2tp_secret ++ last) in
    let u = bit_xor v (get_or digest' 0 0) in
    u ∷ unhide_from env (drop 1 digest') (u ∷ []) value len
unhide_from env (x ∷ digest) last (v ∷ value) (suc len) =
    let u = bit_xor v x in u ∷ unhide_from env digest (last ++ u ∷ []) value len

pub unhide_value : Env → List ℕ → ℕ → ℕ → List ℕ → List ℕ
unhide_value env value len type vector =
    unhide_from env (env.md5 (put16 type ++ env.l2tp_secret ++ vector)) [] value len

pub build_chap_response : Env → List ℕ → ℕ → ℕ → Option (List ℕ)
build_chap_response env challenge id challenge_length =
    if length env.l2tp_secret == 0
    then none
    else some (env.md5 (id ∷ env.l2tp_secret ++ take challenge_length challenge))

-- The local variables of processudp that the AVPs set, and the fields of the tunnel and of the
-- session.
pub record Avps : Type 0 where
  pub message : ℕ
  pub fatal : ℕ
  pub mandatory : ℕ
  pub version : ℕ
  pub result : ℕ
  pub error : ℕ
  pub asession : ℕ
  pub amagic : ℕ
  pub aflags : ℕ
  pub called : List ℕ
  pub calling : List ℕ
  pub disc_cause_set : ℕ
  pub disc_cause : ℕ
  pub sendchalresponse : Option (List ℕ)
  pub recvchalresponse : Option (List ℕ)
  pub hostname : List ℕ
  pub vendor : List ℕ
  pub far : ℕ
  pub window : ℕ
  pub session_far : ℕ
  pub tx_connect_speed : ℕ
  pub rx_connect_speed : ℕ
  pub random_vector : List ℕ

-- What they are before the loop, over the tunnel and the session in `s`.
abbrev pub before_avps : Avps → Avps
before_avps s = record s {
  message = 0xFFFF;
  fatal = 0;
  mandatory = 0;
  version = 0x0100;
  result = 0;
  error = 0;
  asession = 0;
  amagic = 0;
  aflags = 0;
  called = [];
  calling = [];
  disc_cause_set = 0;
  disc_cause = 10;
  sendchalresponse = none;
  recvchalresponse = none;
}
