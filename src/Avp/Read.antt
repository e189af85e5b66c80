-- ===== src/Avp/Read.antt =====
-- The loop over the AVPs in processudp.
use l2tpns.Prelude.{
  ℕ, zero, suc, ◌+◌, ◌-◌, ◌/◌, ◌%◌, ◌^◌, List, Option, none, some, Bool, not, ◌||◌, ltb, ◌==◌,
  if◌then◌else◌, length, drop, get_or,
}
use l2tpns.Avp.{Env, Avps, get16, unhide_value}
use l2tpns.Avp.Take.{refuse, take_avp}

-- `n -= 6`
abbrev pub value_length : ℕ → ℕ
value_length n = (n + 2 ^ 16 - 6) % 2 ^ 16

-- A hidden AVP; `n` is its length, and `none` that unhide_value writes behind the AVP.
unfoldable pub take_hidden : Env → ℕ → ℕ → ℕ → List ℕ → Avps → Option Avps
unfolding take_avp
take_hidden env flags mtype n b s =
    let len = value_length n in
    let b' = unhide_value env b len mtype s.random_vector in
    let orig_len = get16 b' in
    if length env.l2tp_secret == 0
    then some (refuse flags 2 6 s)
    else if length s.random_vector == 0
    then some (refuse flags 2 6 s)
    else if ltb len 8
    then some (refuse flags 2 2 s)
    else if ltb n 6
    then none
    else if ltb (len + 2) orig_len
    then some (refuse flags 2 2 s)
    else some (take_avp env flags mtype orig_len (drop 2 b') s)

-- One AVP of `n` bytes at `p`.
unfoldable pub take_one : Env → List ℕ → ℕ → Avps → Option Avps
unfolding take_hidden
take_one env p n s =
    let flags = get_or p 0 0 in
    let mtype = get16 (drop 4 p) in
    if not (flags / 4 % 16 == 0)
    then some (refuse flags 2 3 s)
    else if not (get16 (drop 2 p) == 0)
    then some (refuse flags 2 6 s)
    else if flags / 64 % 2 == 1
    then take_hidden env flags mtype n (drop 6 p) s
    else some (take_avp env flags mtype (value_length n) (drop 6 p) s)

-- `fatal & 0x80`
abbrev pub is_fatal : Avps → Bool
is_fatal s = s.fatal / 128 % 2 == 1

-- How the loop ends: an AVP is longer than the message, all are read or one is fatal, memory is
-- overwritten, or it has not ended.
pub data Reading : Type 0 where
  invalid : Avps → Reading
  done : Avps → Reading
  overrun : Reading
  spent : Reading

abbrev pub after_one : Option Avps → (Avps → Reading) → Reading
after_one none more = overrun
after_one (some s) more = more s

-- The loop, for `fuel` rounds.
unfoldable pub read_avps : ℕ → Env → List ℕ → ℕ → Avps → Reading
unfolding take_one
read_avps zero env p l s = spent
read_avps (suc fuel) env p l s =
    let n = get16 p % 0x400 in
    let rest = after_one (take_one env p n s) (read_avps fuel env (drop n p) (l - n)) in
    if l == 0 || is_fatal s then done s else if ltb l n then invalid s else rest
