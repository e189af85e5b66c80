-- ===== src/L2tp.antt =====
-- The control connection of an L2TP tunnel in l2tpns.c: the queue of messages with its window and
-- sequence numbers (controladd, controlnull, tunnelsend, and the part of processudp from the
-- comparison of the sequence number to the AVPs), and the resending in regular_cleanups.
-- The tunnel is not 0 and not that of PPPoE. A `controlt` is the part of its buffer behind the
-- header, and the words of the header that controladd writes; a packet is what tunnelsend sends.
pub mod Acks
pub mod Sending
pub mod Queue
pub mod Delivery
pub mod Good
pub mod Ends
pub mod Arrive
pub mod Run
mod Tests
use l2tpns.Prelude.{
  ℕ, zero, suc, ◌+◌, ◌-◌, ◌*◌, ◌/◌, ◌%◌, ◌^◌, List, [], ◌∷◌, ◌++◌, Option, none, some, Bool, true,
  false, not, ◌&&◌, ltb, leb, ◌==◌, if◌then◌else◌, length, drop, add32,
}

-- A message, with the `far`, `session` and `ns` of its header.
pub record Control : Type 0 where
  pub far : ℕ
  pub session : ℕ
  pub ns : ℕ
  pub avps : List ℕ

-- A packet on the line: a message, or none, with the number that is expected next.
pub record Packet : Type 0 where
  pub control : Control
  pub nr : ℕ

-- What of `tunnelt` the control connection uses; `has_ip` says whether `ip` is set, and `sent` are
-- the packets that went out.
pub record Tunnel : Type 0 where
  pub far : ℕ
  pub has_ip : Bool
  pub window : ℕ
  pub nr : ℕ
  pub ns : ℕ
  pub last : ℕ
  pub retry : ℕ
  pub try : ℕ
  pub controlc : ℕ
  pub controls : List Control
  pub sent : List Packet

-- TIME and time_now
pub record Clock : Type 0 where
  pub tenths : ℕ
  pub seconds : ℕ

abbrev pub add16 : ℕ → ℕ → ℕ
add16 a b = (a + b) % 2 ^ 16

abbrev pub sub16 : ℕ → ℕ → ℕ
sub16 a b = (a + 2 ^ 16 - b) % 2 ^ 16

unfoldable pub backoff : Clock → ℕ → ℕ
backoff now try = let shift = if ltb 5 try then 5 else try in add32 now.tenths (10 * 2 ^ shift)

-- tunnelsend of a control message; whether sendto fails changes nothing here.
unfoldable pub tunnelsend : Clock → Tunnel → Control → Tunnel
unfolding backoff
tunnelsend now t c =
    let out = record t {
      last = now.seconds;
      retry = backoff now t.try;
      sent = t.sent ++ record { control = c; nr = t.nr } ∷ [];
    } in
    if t.has_ip then out else t

-- A message without AVPs, when there is no other to carry the number that is expected next.
unfoldable pub controlnull : Clock → Tunnel → Tunnel
unfolding tunnelsend
controlnull now t =
    let out = tunnelsend now t (record { far = t.far; session = 0; ns = t.ns; avps = [] }) in
    if t.controlc == 0 then out else t

-- The message is queued, and sent if there is room in the window.
unfoldable pub controladd : Clock → Tunnel → ℕ → List ℕ → Tunnel
unfolding tunnelsend
controladd now t session avps =
    let c : Control = record { far = t.far; session = session; ns = t.ns; avps = avps } in
    let queued = record t {
      ns = add16 t.ns 1;
      controls = t.controls ++ c ∷ [];
      controlc = add16 t.controlc 1;
    } in
    let out = tunnelsend now (record queued { try = 0 }) c in
    if leb queued.controlc t.window then out else queued

-- `((ns - controlc) - nr) & 0x8000`: the oldest message has a number below `nr`.
abbrev pub is_acked : ℕ → ℕ → ℕ → Bool
is_acked ns controlc nr = leb (2 ^ 15) (sub16 (sub16 ns controlc) nr)

-- The messages that stay, with their count, and how many are acknowledged.
pub record Acked : Type 0 where
  pub controls : List Control
  pub controlc : ℕ
  pub gone : ℕ

-- The loop that clears acknowledged messages. The list is as long as the count says.
unfoldable pub clear_acked : List Control → ℕ → ℕ → ℕ → ℕ → Acked
clear_acked [] ns nr controlc gone = record { controls = []; controlc = controlc; gone = gone }
clear_acked (c ∷ controls) ns nr controlc gone =
    let rest = clear_acked controls ns nr (controlc - 1) (gone + 1) in
    if ltb 0 controlc && is_acked ns controlc nr
    then rest
    else record { controls = c ∷ controls; controlc = controlc; gone = gone }

-- The loop that sends what has come into the window.
unfoldable pub send_first : Clock → List Control → ℕ → Tunnel → Tunnel
unfolding tunnelsend
send_first now [] tosend t = t
send_first now (c ∷ controls) zero t = t
send_first now (c ∷ controls) (suc tosend) t =
    send_first now controls tosend (tunnelsend now (record t { try = 0 }) c)

-- The rest of "check sequence of this message", behind that loop.
unfoldable pub after_clear : Clock → Tunnel → ℕ → ℕ → Acked → Tunnel
unfolding send_first
after_clear now t ns l a =
    let cleared = record t {
      controls = a.controls;
      controlc = a.controlc;
      try = if a.gone == 0 then t.try else 0;
      nr = if l == 0 then t.nr else add16 ns 1;
    } in
    let skip = t.window - a.gone in
    let sent = send_first now (drop skip a.controls) (t.window - skip) cleared in
    let moved = if ltb skip a.controlc then sent else cleared in
    if a.controlc == 0 then record moved { retry = 0 } else moved

-- "check sequence of this message", where `ns` is the expected number.
unfoldable pub take_ack : Clock → Tunnel → ℕ → ℕ → ℕ → Tunnel
unfolding clear_acked after_clear
take_ack now t ns nr l = after_clear now t ns l (clear_acked t.controls t.ns nr t.controlc 0)

-- processudp from the comparison of `ns` on, up to the AVPs: the Boolean says whether a message of
-- `l` bytes is handed on.
unfoldable pub receive : Clock → Tunnel → ℕ → ℕ → ℕ → Tunnel × Bool
unfolding controlnull take_ack
receive now t ns nr l =
    if not (ns == t.nr)
    then (if l == 0 then t else controlnull now t, false)
    else (take_ack now t ns nr l, not (l == 0))

-- What becomes of a tunnel whose messages are not acknowledged: tunnelkill is `none`.
unfoldable pub send_window : Clock → List Control → ℕ → Tunnel → Tunnel
unfolding tunnelsend
send_window now [] w t = t
send_window now (c ∷ controls) zero t = t
send_window now (c ∷ controls) (suc w) t = send_window now controls w (tunnelsend now t c)

-- "check for message resend" of regular_cleanups
unfoldable pub resend : Clock → Tunnel → Option Tunnel
unfolding send_window
resend now t =
    let again = record t { try = (t.try + 1) % 2 ^ 8 } in
    let late = not (t.retry == 0) && not (t.controlc == 0) && leb t.retry now.tenths in
    if late
    then if ltb 5 again.try then none else some (send_window now t.controls t.window again)
    else some t
