-- ===== src/Cluster/Heartbeat/Masters.antt =====
-- Two masters that hear each other's heartbeats.
use l2tpns.Prelude.{
  ℕ, ◌≤◌, ◌<◌, ◌≡◌, ◌≢◌, ◌⊎◌, ◌↔◌, refl, ◌∙◌, List, true, false, ltb, ◌==◌, ◌||◌, length, arith,
}
use l2tpns.Cluster.Heartbeat.{
  Header, Node, leaves, meet_master, begin_heartbeat, fill_header, hb_version, max_heart_size,
  admitted,
}

-- The rank of a master: more state changes, then the older start, then the larger address.
abbrev pub Yields : Node → Node → Type 0
Yields a b =
    (a.table_version < b.table_version)
    ⊎ (a.table_version ≡ b.table_version)
      × ((b.basetime < a.basetime) ⊎ (a.basetime ≡ b.basetime) × (a.my_address < b.my_address))

-- A packet of a version, a size and a cluster that are accepted.
pub record Acceptable (header_size bind_address hb_ver : ℕ) (packet : List ℕ) (s : ℕ) (h : Header)
    : Type 0 where
  pub old_enough : 5 ≤ hb_ver
  pub new_enough : hb_ver ≤ hb_version
  pub small_enough : length packet ≤ max_heart_size
  pub whole : header_size ≤ s
  pub ours : h.clusterid ≡ bind_address

meets :
    (a b : Node)
    → b.basetime ≢ 0
    → (meet_master a (fill_header b) b.my_address ≡ leaves) ↔ Yields a b
unfolding meet_master fill_header
meets a b h = (λ e. ground arith, λ y. ground arith)

-- The checks of the packet are passed.
pub begin_acceptable :
    (header_size : ℕ) (c : Node) (hb_ver : ℕ) (packet : List ℕ) (s : ℕ) (h : Header) (addr : ℕ)
    → Acceptable header_size c.bind_address hb_ver packet s h
    → begin_heartbeat header_size c hb_ver packet s h addr ≡ admitted c hb_ver packet h addr
unfolding begin_heartbeat
begin_acceptable header_size c hb_ver packet s h addr ok =
    let old = ok.old_enough in
    let new = ok.new_enough in
    let small = ok.small_enough in
    let whole = ok.whole in
    let ours = ok.ours in
    let version : (ltb hb_ver 5 || ltb hb_version hb_ver) ≡ false = ground arith in
    let size : ltb max_heart_size (length packet) ≡ false = ground arith in
    let short : ltb s header_size ≡ false = ground arith in
    let cluster : (h.clusterid == c.bind_address) ≡ true = ground arith in
    simp (version, size, short, cluster)

by_master :
    (c : Node) (hb_ver : ℕ) (packet : List ℕ) (h : Header) (addr : ℕ)
    → c.iam_master ≡ true
    → admitted c hb_ver packet h addr ≡ (c, meet_master c h addr)
unfolding admitted
by_master c hb_ver packet h addr master = rw master refl

begin_master :
    (header_size : ℕ) (c : Node) (hb_ver : ℕ) (packet : List ℕ) (s : ℕ) (h : Header) (addr : ℕ)
    → Acceptable header_size c.bind_address hb_ver packet s h
    → c.iam_master ≡ true
    → begin_heartbeat header_size c hb_ver packet s h addr ≡ (c, meet_master c h addr)
begin_master header_size c hb_ver packet s h addr ok master =
    begin_acceptable header_size c hb_ver packet s h addr ok
    ∙ by_master c hb_ver packet h addr master

Yields-total : (a b : Node) → a.my_address ≢ b.my_address → Yields a b ↔ (¬ Yields b a)
Yields-total a b ne = (λ y z. ground arith, λ n. ground arith)

-- Of two masters of a cluster whose addresses differ and whose start times are not 0, that each
-- receive the heartbeat that the other makes, exactly one leaves; neither changes its state.
pub two_masters :
    (header_size : ℕ) (a b : Node) (va vb sa sb : ℕ) (pa pb : List ℕ)
    → a.iam_master ≡ true
    → b.iam_master ≡ true
    → a.basetime ≢ 0
    → b.basetime ≢ 0
    → a.my_address ≢ b.my_address
    → Acceptable header_size a.bind_address va pa sa (fill_header b)
    → Acceptable header_size b.bind_address vb pb sb (fill_header a)
    → let ra = begin_heartbeat header_size a va pa sa (fill_header b) b.my_address in
      let rb = begin_heartbeat header_size b vb pb sb (fill_header a) a.my_address in
      ((ra.1 ≡ leaves) ↔ (rb.1 ≢ leaves)) × (ra.0 ≡ a) × (rb.0 ≡ b)
two_masters header_size a b va vb sa sb pa pb ma mb ha hb ne oka okb =
    let ea = begin_master header_size a va pa sa (fill_header b) b.my_address oka ma in
    let eb = begin_master header_size b vb pb sb (fill_header a) a.my_address okb mb in
    let (fa, ga) = meets a b hb in
    let (fb, gb) = meets b a ha in
    let (t, u) = Yields-total a b ne in
    rw (ea, eb) ((λ x y. t (fa x) (fb y), λ n. ga (u (λ y. n (gb y)))), refl, refl)
