-- ===== src/L2tp/Delivery.antt =====
-- Two ends of a tunnel and the line between them, which loses, repeats and reorders packets.
use l2tpns.Prelude.{
  ℕ, ◌+◌, ◌^◌, ◌<◌, ◌≡◌, ◌≢◌, ◌⊎◌, List, [], ◌∷◌, ◌++◌, some, true, if◌then◌else◌, length,
}
use l2tpns.L2tp.{Packet, Tunnel, Clock, controlnull, controladd, receive, resend}

-- One end, with the messages that were given to it to send and those that it has handed on.
pub record Peer : Type 0 where
  pub tunnel : Tunnel
  pub added : List (List ℕ)
  pub accepted : List (List ℕ)

abbrev pub InList : {A : Type 0} → A → List A → Type 0
InList p [] = ⊥
InList p (x ∷ l) = (p ≡ x) ⊎ InList p l

-- The packet arrives; what is handed on is kept.
abbrev pub arrive : Clock → Packet → Peer → Peer
arrive now p b =
    let (t, handed) = receive now b.tunnel p.control.ns p.nr (length p.control.avps) in
    record b {
      tunnel = t;
      accepted = if handed then b.accepted ++ p.control.avps ∷ [] else b.accepted;
    }

abbrev pub give : Clock → ℕ → List ℕ → Peer → Peer
give now session avps a = record a {
  tunnel = controladd now a.tunnel session avps;
  added = a.added ++ avps ∷ [];
}

pub record Ends : Type 0 where
  pub here : Peer
  pub there : Peer

-- One step of either end: a message is given to it, a packet arrives that the other has sent at any
-- time, it sends an acknowledgement, its timer runs out, or it learns the window or number of the
-- other. Fewer than 2 ^ 15 messages are given to each.
pub data Step (s : Ends) : Ends → Type 0 where
  gives :
      (now : Clock) (session : ℕ) (avps : List ℕ)
      → avps ≢ []
      → length s.here.added + 1 < 2 ^ 15
      → Step s (record s { here = give now session avps s.here })
  arrives :
      (now : Clock) (p : Packet)
      → InList p s.there.tunnel.sent
      → Step s (record s { here = arrive now p s.here })
  acks :
      (now : Clock)
      → Step s (record s { here = record s.here { tunnel = controlnull now s.here.tunnel } })
  resends :
      (now : Clock) (t : Tunnel)
      → resend now s.here.tunnel ≡ some t
      → Step s (record s { here = record s.here { tunnel = t } })
  learns :
      (far window : ℕ)
      → Step s (record s {
        here = record s.here { tunnel = record s.here.tunnel { far = far; window = window } };
      })
  swaps : Step s (record { here = s.there; there = s.here })

abbrev pub IsFresh : Peer → Type 0
IsFresh a =
    (a.tunnel.controls ≡ [])
    × (a.tunnel.controlc ≡ 0)
    × (a.tunnel.sent ≡ [])
    × (a.tunnel.ns ≡ 0)
    × (a.tunnel.nr ≡ 0)
    × (a.tunnel.has_ip ≡ true)
    × (a.added ≡ [])
    × (a.accepted ≡ [])

pub data Reach (s : Ends) : Ends → Type 0 where
  start : Reach s s
  later : {t u : Ends} → Reach s t → Step t u → Reach s u
