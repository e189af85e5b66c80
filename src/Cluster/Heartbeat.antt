-- ===== src/Cluster/Heartbeat.antt =====
-- cluster_process_heartbeat of cluster.c up to the loop over the structures: who may be the master,
-- and whether a heartbeat is the next one.
-- Sequence numbers are below HB_MAX_SEQ; the value -1, "don't have one", is `none`.
pub mod Masters
pub mod Sequence
mod Tests
use l2tpns.Prelude.{
  ℕ, ◌+◌, ◌-◌, ◌%◌, List, [], ◌∷◌, ◌++◌, Option, none, some, Bool, true, false, not, ◌&&◌, ◌||◌,
  ltb, leb, ◌==◌, if◌then◌else◌, sub32, length,
}
use l2tpns.IpMap.{put_at}
use l2tpns.Cluster.Catchup.{Heart, hb_max_seq, hb_history_size}

-- `heartt`, less the sizes of the structures and the ends of the tables
pub record Header : Type 0 where
  pub clusterid : ℕ
  pub basetime : ℕ
  pub table_version : ℕ
  pub seq : ℕ
  pub interval : ℕ
  pub timeout : ℕ

-- What the function reads and writes, `config->cluster_` left out of the names; `asked` are the
-- C_LASTSEEN messages that were sent, to whom and with which number.
pub record Node : Type 0 where
  pub bind_address : ℕ
  pub iam_master : Bool
  pub table_version : ℕ
  pub basetime : ℕ
  pub my_address : ℕ
  pub master_address : ℕ
  pub seq_number : Option ℕ
  pub last_hb : ℕ
  pub last_hb_ver : ℕ
  pub hb_interval : ℕ
  pub hb_timeout : ℕ
  pub time : ℕ
  pub time_now : ℕ
  pub lastseen_seq : ℕ
  pub lastseen_time : ℕ
  pub past : ℕ → Heart
  pub asked : List (ℕ × ℕ)

-- What becomes of a heartbeat. `leaves` is the exit; `pokes` is a return of -1 after
-- cluster_catchup_slave with that number; `waits` is a return of 0, and after `goes_on` the
-- structures are read.
pub data Verdict : Type 0 where
  refuses leaves waits goes_on : Verdict
  pokes : ℕ → Verdict

abbrev pub hb_version : ℕ
hb_version = 9

abbrev pub max_heart_size : ℕ
max_heart_size = 8192

-- `config->cluster_seq_number` as an `int`
abbrev pub as_int : Option ℕ → ℕ
as_int none = sub32 0 1
as_int (some n) = n

-- "I just got a heartbeat from master %s, but _I_ am the master!"
pub meet_master : Node → Header → ℕ → Verdict
meet_master c h addr =
    if h.basetime == 0
    then refuses
    else if ltb c.table_version h.table_version
    then leaves
    else if ltb h.table_version c.table_version
    then refuses
    else if ltb h.basetime c.basetime
    then leaves
    else if ltb c.basetime h.basetime
    then refuses
    else if ltb c.my_address addr
    then leaves
    else pokes (sub32 (as_int c.seq_number) 1)

-- "Just align to the master..."
abbrev pub align : Node → ℕ → ℕ → Node
align c seq hb_ver = record c {
  seq_number = elim c.seq_number [ none ↦ some seq | some n ↦ some n ];
  last_hb = c.time;
  last_hb_ver = hb_ver;
}

abbrev pub expected : Node → ℕ → ℕ
expected c seq = elim c.seq_number [ none ↦ seq | some n ↦ n ]

-- "Out of sequence heartbeat!"
pub ask_again : Node → ℕ → ℕ → Node
ask_again c want addr =
    let ask = not (want == c.lastseen_seq) || not (c.time_now == c.lastseen_time) in
    let asking = record c {
      lastseen_seq = want;
      lastseen_time = c.time_now;
      asked = c.asked ++ (addr, want) ∷ [];
    } in
    if ask then asking else c

-- "Save the packet in our buffer."
abbrev pub save_heart : Node → Header → List ℕ → Node
save_heart c h packet = record c {
  seq_number = some ((h.seq + 1) % hb_max_seq);
  past = put_at c.past (h.seq % hb_history_size) (record { seq = h.seq; bytes = packet });
  hb_interval = h.interval;
  hb_timeout = h.timeout;
}

-- The part behind the checks of the packet.
unfoldable pub admitted : Node → ℕ → List ℕ → Header → ℕ → Node × Verdict
unfolding meet_master ask_again
admitted c hb_ver packet h addr =
    let a = align c h.seq hb_ver in
    let want = expected c h.seq in
    if c.iam_master
    then (c, meet_master c h addr)
    else if not (c.master_address == 0) && not (addr == c.master_address)
    then (c, refuses)
    else if not (want == h.seq)
    then (ask_again a want addr, waits)
    else (save_heart a h packet, goes_on)

-- `packet` is the whole packet and `s` the number of its bytes behind the type; `header_size` is
-- the size of the header.
unfoldable pub begin_heartbeat : ℕ → Node → ℕ → List ℕ → ℕ → Header → ℕ → Node × Verdict
unfolding admitted
begin_heartbeat header_size c hb_ver packet s h addr =
    let next = admitted c hb_ver packet h addr in
    if ltb hb_ver 5 || ltb hb_version hb_ver
    then (c, refuses)
    else if ltb max_heart_size (length packet)
    then (c, refuses)
    else if ltb s header_size
    then (c, refuses)
    else if not (h.clusterid == c.bind_address)
    then (c, refuses)
    else next

-- The end of the function.
unfoldable pub end_heartbeat : Node → Header → ℕ → Node
end_heartbeat c h addr = record c {
  master_address = addr;
  last_hb = c.time;
  table_version = h.table_version;
}

-- What cluster_heartbeat fills in for the header of the next heartbeat, once it has added the number
-- of the changes to `table_version`.
unfoldable pub fill_header : Node → Header
fill_header c = record {
  clusterid = c.bind_address;
  basetime = c.basetime;
  table_version = c.table_version;
  seq = as_int c.seq_number;
  interval = c.hb_interval;
  timeout = c.hb_timeout;
}
