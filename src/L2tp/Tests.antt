-- ===== src/L2tp/Tests.antt =====
-- Runs of the control connection.
use l2tpns.Prelude.{ℕ, ◌≤◌, ◌≡◌, inl, refl, [], ◌∷◌, none, some, true, false, length, arith}
use l2tpns.L2tp.{
  Control, Packet, Tunnel, Clock, backoff, tunnelsend, controlnull, controladd, clear_acked,
  send_first, after_clear, take_ack, receive, send_window, resend,
}
use l2tpns.L2tp.Delivery.{
  Peer, InList, arrive, give, Ends, gives, arrives, swaps, Reach, start, later,
}
use l2tpns.L2tp.Good.{Numbered, IsPrefix}
use l2tpns.L2tp.Run.{Reach-IsPrefix}

abbrev clock : Clock
clock = record { tenths = 1000; seconds = 100 }

abbrev quiet : Tunnel
quiet = record {
  far = 9;
  has_ip = true;
  window = 1;
  nr = 0;
  ns = 0;
  last = 0;
  retry = 0;
  try = 0;
  controlc = 0;
  controls = [];
  sent = [];
}

abbrev message : ℕ → ℕ → Control
message ns v = record { far = 9; session = 0; ns = ns; avps = v ∷ [] }

-- Two messages from number 65535 on, with a window for one.
abbrev waiting : Tunnel
waiting = record quiet { ns = 1; controlc = 2; controls = message 65535 5 ∷ message 0 6 ∷ [] }

-- The first is acknowledged: the second is sent.
receive-waiting :
    let (t, handed) = receive clock waiting 0 0 0 in
    (handed ≡ false)
    × (t.controls ≡ message 0 6 ∷ [])
    × (t.sent ≡ record { control = message 0 6; nr = 0 } ∷ [])
unfolding receive take_ack clear_acked after_clear send_first tunnelsend backoff controlnull
receive-waiting = (refl, refl, refl)

-- After five attempts the tunnel is gone.
resend-waiting :
    (resend clock (record waiting { retry = 1000; try = 5 }) ≡ none)
    × (resend clock (record waiting { retry = 1001; try = 5 })
        ≡ some (record waiting { retry = 1001; try = 5 }))
unfolding resend send_window tunnelsend backoff
resend-waiting = (refl, refl)

abbrev peer : Peer
peer = record { tunnel = quiet; added = []; accepted = [] }

abbrev ends : Ends
ends = record { here = peer; there = peer }

abbrev giver : Peer
giver = give clock 3 (7 ∷ []) peer

abbrev packet : Packet
packet = record { control = record { far = 9; session = 3; ns = 0; avps = 7 ∷ [] }; nr = 0 }

abbrev arrived : Ends
arrived = record { here = arrive clock packet (arrive clock packet peer); there = giver }

packet-giver : InList packet giver.tunnel.sent
unfolding controladd tunnelsend backoff
packet-giver = inl refl

-- The packet arrives twice.
abbrev run : Reach ends arrived
run =
    later
      (later (later (later start (gives clock 3 (7 ∷ []) (λ e. absurd (cc)) (omega arith))) swaps)
        (arrives clock packet packet-giver))
      (arrives clock packet packet-giver)

run_accepted : arrived.here.accepted ≡ (7 ∷ []) ∷ []
unfolding receive take_ack clear_acked after_clear send_first tunnelsend backoff controlnull
run_accepted = refl

Reach-IsPrefix_example :
    IsPrefix arrived.here.accepted giver.added
    × IsPrefix giver.accepted arrived.here.added
    × ((i : ℕ) × (i ≤ length giver.accepted)
        × Numbered arrived.here.added i arrived.here.tunnel.controls)
    × ((i : ℕ) × (i ≤ length arrived.here.accepted) × Numbered giver.added i giver.tunnel.controls)
Reach-IsPrefix_example =
    Reach-IsPrefix ends arrived (refl, refl, refl, refl, refl, refl, refl, refl)
      (refl, refl, refl, refl, refl, refl, refl, refl) run
