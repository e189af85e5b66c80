-- ===== src/Avp/Take.antt =====
-- The switch over the type of an AVP in processudp.
use Prim.Native.Nat.{min, bit_or}
use l2tpns.Prelude.{
  ℕ, zero, suc, ◌-◌, ◌*◌, ◌/◌, ◌%◌, ◌^◌, List, Option, none, some, Bool, not, ◌&&◌, ◌||◌, ltb, leb,
  ◌==◌, if◌then◌else◌, take, drop, get_or,
}
use l2tpns.Avp.{Env, Avps, get16, get32, build_chap_response}

-- memset and memcpy into a text of `size` bytes; what follows is 0.
abbrev pub copied : ℕ → ℕ → List ℕ → List ℕ
copied size n b = take (if ltb n size then n else size - 1) b

-- The AVP is refused.
abbrev pub refuse : ℕ → ℕ → ℕ → Avps → Avps
refuse flags result error s = record s { fatal = flags; result = result; error = error }

-- result code
unfoldable pub result_code : List ℕ → Avps → Avps
result_code b s =
    let rescode = get16 b in
    let cause =
      if s.message == 4
      then 3
      else if s.message == 14
      then (if rescode == 1 then 2 else 6)
      else 0 in
    if not (cause == 0) && ltb s.disc_cause_set 1
    then record s { disc_cause_set = 1; disc_cause = cause }
    else s

-- protocol version
unfoldable pub protocol_version : ℕ → List ℕ → Avps → Avps
protocol_version flags b s =
    let read = record s { version = get16 b } in
    if not (get16 b == 0) && not (get16 b == 0x0100) then refuse flags 5 0x0100 read else read

-- Request Challenge
unfoldable pub challenge : Env → ℕ → List ℕ → Avps → Avps
challenge env n b s =
    if s.message == 1
    then record s { sendchalresponse = build_chap_response env b 2 n }
    else if s.message == 2
    then record s { sendchalresponse = build_chap_response env b 3 n }
    else s

-- receive challenge Response
unfoldable pub challenge_response : Env → ℕ → List ℕ → Avps → Avps
challenge_response env n b s =
    if env.isremotelns
    then record s { recvchalresponse = some (take (if ltb n 17 then n else 16) b) }
    else s

-- tx and rx connect speed, a number or a text
unfoldable pub connect_speed : Env → ℕ → List ℕ → ℕ
connect_speed env n b = if n == 4 then get32 b else env.atol (copied 30 n b) % 2 ^ 32

-- One option of the last sent lcp.
abbrev pub lcp_option : List ℕ → Avps → Avps
lcp_option p s =
    let type = get_or p 0 0 in
    if type == 5 && get_or p 1 0 == 6
    then record s { amagic = get32 (drop 2 p) }
    else if type == 7
    then record s { aflags = bit_or s.aflags 1 }
    else if type == 8
    then record s { aflags = bit_or s.aflags 2 }
    else s

-- The loop over these options; `n` is `e - p`. Every option has a byte at least.
unfoldable pub last_sent_lcp : ℕ → List ℕ → ℕ → Avps → Avps
last_sent_lcp zero p n s = s
last_sent_lcp (suc fuel) p n s =
    let len = get_or p 1 0 in
    let rest = last_sent_lcp fuel (drop len p) (n - len) (lcp_option p s) in
    if ltb 1 n && not (len == 0) && leb len n then rest else s

-- The cause of a code, where there is one.
unfoldable pub cause_of : ℕ → ℕ → Option ℕ
cause_of code dir =
    if code == 1
    then some 6
    else if code == 3
    then (if dir == 2 then some 1 else none)
    else if code == 4
    then (if dir == 1 then some 17 else none)
    else if leb 5 code && leb code 8
    then some 12
    else if code == 13 || (leb 15 code && leb code 20)
    then some 15
    else none

abbrev pub set_cause : Avps → Option ℕ → Avps
set_cause s none = s
set_cause s (some cause) = record s { disc_cause = cause }

-- ppp disconnect cause
unfoldable pub disconnect_cause : ℕ → List ℕ → Avps → Avps
unfolding cause_of
disconnect_cause n b s =
    if leb 5 n
    then set_cause (record s { disc_cause_set = 46 }) (cause_of (get16 b) (get_or b 4 0))
    else s

-- The types that the code knows and does nothing with.
unfoldable pub is_ignored : ℕ → Bool
is_ignored mtype =
    (leb 3 mtype && leb mtype 6)
    || mtype == 15
    || mtype == 18
    || mtype == 19
    || mtype == 23
    || mtype == 25
    || mtype == 26
    || (leb 28 mtype && leb mtype 33)
    || mtype == 39

-- The types of the session.
unfoldable pub take_call : Env → ℕ → ℕ → ℕ → List ℕ → Avps → Avps
unfolding connect_speed last_sent_lcp disconnect_cause is_ignored
take_call env flags mtype n b s =
    if mtype == 14
    then record s { asession = get16 b; session_far = get16 b }
    else if mtype == 21
    then record s { called = copied 96 n b }
    else if mtype == 22
    then record s { calling = copied 96 n b }
    else if mtype == 24
    then record s { tx_connect_speed = connect_speed env n b }
    else if mtype == 38
    then record s { rx_connect_speed = connect_speed env n b }
    else if mtype == 27
    then last_sent_lcp n b n s
    else if mtype == 36
    then record s { random_vector = take (min n 96) b }
    else if mtype == 46
    then disconnect_cause n b s
    else if is_ignored mtype
    then s
    else refuse flags 2 8 s

-- The switch; `n` bytes of value are at `b`.
unfoldable pub take_avp : Env → ℕ → ℕ → ℕ → List ℕ → Avps → Avps
unfolding result_code protocol_version challenge challenge_response take_call
take_avp env flags mtype n b s =
    if mtype == 0
    then record s { message = get16 b; mandatory = flags / 128 % 2 * 128 }
    else if mtype == 1
    then result_code b s
    else if mtype == 2
    then protocol_version flags b s
    else if mtype == 7
    then record s { hostname = copied 128 n b }
    else if mtype == 8
    then record s { vendor = copied 128 n b }
    else if mtype == 9
    then record s { far = get16 b }
    else if mtype == 10
    then record s { window = if get16 b == 0 then 1 else get16 b }
    else if mtype == 11
    then challenge env n b s
    else if mtype == 13
    then challenge_response env n b s
    else take_call env flags mtype n b s
