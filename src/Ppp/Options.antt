-- ===== src/Ppp/Options.antt =====
-- The options of an LCP ConfigReq in processlcp of ppp.c, with ppp_conf_rej, ppp_conf_nak and
-- add_lcp_auth. `o` is the packet from an option on, `x` what is left of its length; the bytes
-- behind the packet are 0.
use Prim.Native.Nat.{bit_and}
use l2tpns.Prelude.{
  ℕ, zero, suc, ◌+◌, ◌-◌, ◌*◌, ◌/◌, ◌%◌, ◌^◌, List, [], ◌∷◌, ◌++◌, Option, none, some, Bool, true,
  false, not, ◌&&◌, ◌||◌, ltb, leb, ◌==◌, if◌then◌else◌, length, take, drop, get_or,
}

abbrev pub at16 : List ℕ → ℕ → ℕ
at16 o i = get_or o i 0 * 256 + get_or o (i + 1) 0

abbrev pub bytes16 : ℕ → List ℕ
bytes16 n = n / 256 % 256 ∷ n % 256 ∷ []

-- `room` is what makeppp leaves of the buffer behind the header of the answer.
pub record Policy : Type 0 where
  pub mru : ℕ
  pub radius_authtypes : ℕ
  pub radius_authprefer : ℕ
  pub ppp_max_failure : ℕ
  pub room : ℕ

-- The fields of the session that options set.
pub record LinkOptions : Type 0 where
  pub mru : ℕ
  pub mrru : ℕ
  pub mssf : ℕ
  pub epdis_class : ℕ
  pub epdis_address : List ℕ
  pub lcp_authtype : ℕ
  pub changed : ℕ

-- The answer that is being made, a ConfigRej or a ConfigNak, with its options so far; `lost` says
-- that `q` is 0, which `queued - buf + n > blen` refuses for ever.
pub record Reply : Type 0 where
  pub is_rej : Bool
  pub options : List ℕ
  pub lost : Bool

abbrev pub put_in : ℕ → Reply → ℕ → List ℕ → Reply
put_in room r len bytes =
    if r.lost || ltb room (length r.options + len)
    then record r { lost = true }
    else record r { options = r.options ++ bytes }

abbrev pub empty_reply : Bool → Reply
empty_reply is_rej = record { is_rej = is_rej; options = []; lost = false }

-- ppp_conf_rej
unfoldable pub ppp_conf_rej : ℕ → Option Reply → List ℕ → Reply
ppp_conf_rej room none o = put_in room (empty_reply true) (get_or o 1 0) (take (get_or o 1 0) o)
ppp_conf_rej room (some r) o =
    put_in room (if r.is_rej then r else empty_reply true) (get_or o 1 0) (take (get_or o 1 0) o)

-- An answer and `nak_sent`.
pub record Response : Type 0 where
  pub reply : Option Reply
  pub nak_sent : ℕ

abbrev pub nak_option : List ℕ → List ℕ → List ℕ
nak_option o value = get_or o 0 0 ∷ (length value + 2) ∷ value

-- ppp_conf_nak, by the answer so far. It gives ppp_conf_rej 0 for `queued`.
unfoldable pub nak_behind : Policy → Option Reply → ℕ → List ℕ → List ℕ → Response
nak_behind c none n o value =
    if leb c.ppp_max_failure n
    then record { reply = some (ppp_conf_rej c.room none o); nak_sent = n }
    else record {
      reply = some (put_in c.room (empty_reply false) (length value + 2) (nak_option o value));
      nak_sent = n + 1;
    }
nak_behind c (some r) n o value =
    let no_queue = record r { lost = true } in
    if r.is_rej
    then record {
      reply = some (if ltb n c.ppp_max_failure then r else ppp_conf_rej c.room (some no_queue) o);
      nak_sent = n;
    }
    else record {
      reply = some (put_in c.room r (length value + 2) (nak_option o value));
      nak_sent = n;
    }

abbrev pub ppp_conf_nak : Policy → Response → List ℕ → List ℕ → Response
ppp_conf_nak c a o value = nak_behind c a.reply a.nak_sent o value

-- What the switch makes of an option: it is kept, there is a value, or a second one behind it, that
-- is asked for instead, or it is unknown.
pub data Verdict : Type 0 where
  keep : Verdict
  nak : List ℕ → Verdict
  nak_two : List ℕ → List ℕ → Verdict
  reject : Verdict

-- The value that add_lcp_auth writes; `none` is a length below 2.
abbrev pub add_lcp_auth : ℕ → Option (List ℕ)
add_lcp_auth authtype =
    if authtype == 2
    then some (0xC2 ∷ 0x23 ∷ 5 ∷ [])
    else if authtype == 1
    then some (0xC0 ∷ 0x23 ∷ [])
    else none

abbrev pub nak_auth_two : List ℕ → Option (List ℕ) → Verdict
nak_auth_two value none = nak value
nak_auth_two value (some other) = nak_two value other

abbrev pub nak_auth : Policy → Option (List ℕ) → Verdict
nak_auth c none = keep
nak_auth c (some value) =
    if c.radius_authtypes == c.radius_authprefer
    then nak value
    else nak_auth_two value
        (add_lcp_auth (bit_and c.radius_authtypes (2 ^ 32 - 1 - c.radius_authprefer)))

-- The authentication type of an option that is accepted, or 0.
unfoldable pub auth_of : Policy → List ℕ → ℕ
auth_of c o =
    if at16 o 2 == 0xC023 && bit_and c.radius_authtypes 1 == 1
    then 1
    else if at16 o 2 == 0xC223 && bit_and c.radius_authtypes 2 == 2 && get_or o 4 0 == 5
    then 2
    else 0

-- The answers of the switch.
unfoldable pub verdict : Policy → List ℕ → Verdict
unfolding auth_of
verdict c o =
    let type = get_or o 0 0 in
    if type == 1
    then (if leb 576 (at16 o 2) then keep else nak (bytes16 c.mru))
    else if type == 2
    then (if at16 o 2 == 0 && at16 o 4 == 0 then keep else nak (0 ∷ 0 ∷ 0 ∷ 0 ∷ []))
    else if type == 3
    then (if auth_of c o == 0 then nak_auth c (add_lcp_auth c.radius_authprefer) else keep)
    else if type == 4 || type == 5 || type == 7 || type == 8
    then keep
    else if leb 17 type && leb type 19
    then keep
    else reject

-- The assignments of the switch.
unfoldable pub learn : Policy → List ℕ → LinkOptions → LinkOptions
unfolding auth_of
learn c o s =
    let type = get_or o 0 0 in
    let wide = (get_or o 1 0 + 256 - 3) % 256 in
    if type == 1 && leb 576 (at16 o 2)
    then record s { mru = at16 o 2; changed = s.changed + 1 }
    else if type == 3 && not (auth_of c o == 0)
    then record s { lcp_authtype = auth_of c o }
    else if type == 17
    then record s { mrru = at16 o 2; changed = s.changed + 1 }
    else if type == 18
    then record s { mssf = 1; changed = s.changed + 1 }
    else if type == 19
    then record s {
      epdis_class = get_or o 2 0;
      epdis_address = take (if ltb 20 wide then 20 else wide) (drop 3 o);
      changed = s.changed + 1;
    }
    else s

-- `q && *response == ConfigNak`
abbrev pub is_nak : Option Reply → Bool
is_nak none = false
is_nak (some r) = not r.is_rej && not r.lost

unfoldable pub answer : Policy → List ℕ → Verdict → Response → Response
answer c o keep a = a
answer c o (nak value) a = ppp_conf_nak c a o value
answer c o (nak_two value other) a =
    let first = ppp_conf_nak c a o value in
    if is_nak first.reply then ppp_conf_nak c first o other else first
answer c o reject a = record a { reply = some (ppp_conf_rej c.room a.reply o) }

pub record Options : Type 0 where
  pub link : LinkOptions
  pub answer : Response

abbrev pub take_option : Policy → List ℕ → Options → Options
take_option c o s = record { link = learn c o s.link; answer = answer c o (verdict c o) s.answer }

-- The loop; every option takes a byte of `x` at least.
unfoldable pub read_options : ℕ → Policy → List ℕ → ℕ → Options → Options
read_options zero c o x s = s
read_options (suc fuel) c o x s =
    let type = get_or o 0 0 in
    let len = get_or o 1 0 in
    let rest = read_options fuel c (drop len o) (x - len) (take_option c o s) in
    if not (ltb 2 x) || len == 0 || type == 0 || ltb x len then s else rest

-- What is sent: none is the packet itself as a ConfigAck.
unfoldable pub config_req : Policy → List ℕ → ℕ → LinkOptions → ℕ → Options
unfolding read_options
config_req c o x link nak_sent =
    read_options x c o x
      (record { link = link; answer = record { reply = none; nak_sent = nak_sent } })
