-- ===== src/Control/RoundTrip.antt =====
-- unpack_control of what pack_control wrote.
use Prim.Native.Nat.{min}
use l2tpns.Prelude.{
  ℕ, zero, suc, ◌+◌, ◌%◌, ◌≤◌, ◌≡◌, ◌≢◌, refl, sym, ap, ◌∙◌, List, [], ◌∷◌, ◌++◌, some, true, false,
  map, length, take, drop, arith, length-append, ltb,
}
use mathlib.Core.Path.{subst}
use l2tpns.Control.{
  magic_high, magic_low, max_pkt_sz, max_value, pack_args, pack_control, unpack_args, unpack_packet,
  unpack_control, args, parsed, known_type, c_string,
}

-- Characters of a string.
abbrev pub Nonzero : List ℕ → Type 0
Nonzero [] = Unit {0}
Nonzero (c ∷ cs) = (c ≢ 0) × Nonzero cs

-- Arguments that the length byte can count.
abbrev pub Packable : List (List ℕ) → Type 0
Packable [] = Unit {0}
Packable (a ∷ argv) = (length a ≤ 255) × Nonzero a × Packable argv

-- The bytes of arguments with their lengths.
abbrev pub args_size : List (List ℕ) → ℕ
args_size [] = 0
args_size (a ∷ argv) = suc (length a) + args_size argv

abbrev pub encoded : List (List ℕ) → List ℕ
encoded [] = 0xff ∷ []
encoded (a ∷ argv) = length a ∷ a ++ encoded argv

-- The bytes of the arguments as unpack_control leaves them, and the offsets of the arguments.
abbrev pub cut : List (List ℕ) → List ℕ
cut [] = 0 ∷ []
cut (a ∷ argv) = 0 ∷ a ++ cut argv

abbrev pub pointers : ℕ → List (List ℕ) → List ℕ
pointers sz [] = []
pointers sz (a ∷ argv) = (sz + 1) ∷ pointers (sz + 1 + length a) argv

take_all {ℓ} : {A : Type ℓ} (a : List A) → take (length a) a ≡ a
take_all [] = refl
take_all (x ∷ a) = ap (λ l. x ∷ l) (take_all a)

take_front : (a b : List ℕ) → take (length a) (a ++ b) ≡ a
take_front [] b = refl
take_front (x ∷ a) b = ap (λ l. x ∷ l) (take_front a b)

drop_front : (a b : List ℕ) → drop (length a) (a ++ b) ≡ b
drop_front [] b = refl
drop_front (x ∷ a) b = drop_front a b

pack_args_lem :
    (len sz : ℕ) (value : List ℕ) (argv : List (List ℕ))
    → Packable argv
    → sz + args_size argv + 1 ≤ len
    → pack_args len sz value argv ≡ some (encoded argv)
unfolding pack_args
pack_args_lem len sz value [] p h = ground arith
pack_args_lem len sz value (a ∷ argv) (small, chars, p) h =
    let s : min (length a) max_value ≡ length a = omega arith in
    let l : length a % 256 ≡ length a = omega arith in
    let rest =
      pack_args_lem len (sz + (length a + 1)) (a ++ drop (length a) value) argv p (omega arith) in
    let room : ltb len (sz + (length a + 1)) ≡ false = ground arith in
    simp (s, l, room, take_all a, take_front a (drop (length a) value), rest)

unpack_args_lem :
    (argv : List (List ℕ)) (sz : ℕ)
    → unpack_args (length argv) sz (encoded argv) ≡ args (cut argv) (pointers sz argv)
unfolding unpack_args
unpack_args_lem [] sz = refl
unpack_args_lem (a ∷ argv) sz =
    let rest = unpack_args_lem argv (sz + 1 + length a) in
    let n = length-append a (encoded argv) in
    let fits : ltb (length (a ++ encoded argv)) (length a) ≡ false = ground arith in
    simp (fits, take_front a (encoded argv), drop_front a (encoded argv), rest)

-- The zero that replaces a length byte ends the argument before it.
c_string-append : (a bytes : List ℕ) → Nonzero a → c_string (a ++ 0 ∷ bytes) ≡ a
unfolding c_string
c_string-append [] bytes h = refl
c_string-append (zero ∷ a) bytes (n, h) = absurd (n refl)
c_string-append (suc c ∷ a) bytes (n, h) = ap (λ l. suc c ∷ l) (c_string-append a bytes h)

c_string-cut : (a : List ℕ) (argv : List (List ℕ)) → Nonzero a → c_string (a ++ cut argv) ≡ a
c_string-cut a [] h = c_string-append a [] h
c_string-cut a (b ∷ argv) h = c_string-append a (b ++ cut argv) h

drop_nil : (n : ℕ) → drop {A = ℕ} n [] ≡ []
drop_nil zero = refl
drop_nil (suc n) = refl

drop-drop : (m n : ℕ) (l : List ℕ) → drop (m + n) l ≡ drop n (drop m l)
drop-drop zero n l = ap (λ k. drop k l) (omega arith)
drop-drop (suc m) n [] = drop_nil (suc m + n) ∙ sym (ap (drop n) (drop_nil (suc m)) ∙ drop_nil n)
drop-drop (suc m) n (x ∷ l) =
    let up : suc m + n ≡ suc (m + n) = omega arith in ap (λ k. drop k (x ∷ l)) up ∙ drop-drop m n l

-- The string at an offset.
abbrev pub string_at : List ℕ → ℕ → List ℕ
string_at pkt p = c_string (drop p pkt)

-- Where the bytes of the arguments stand in a packet, the strings are at the offsets.
string_at-pointers :
    (argv : List (List ℕ)) (pkt : List ℕ) (sz : ℕ)
    → Packable argv
    → drop sz pkt ≡ cut argv
    → map (string_at pkt) (pointers sz argv) ≡ argv
string_at-pointers [] pkt sz p h = refl
string_at-pointers (a ∷ argv) pkt sz (small, chars, p) h =
    let behind : drop (sz + 1) pkt ≡ a ++ cut argv = drop-drop sz 1 pkt ∙ ap (drop 1) h in
    let rest : drop (sz + 1 + length a) pkt ≡ cut argv =
      drop-drop (sz + 1) (length a) pkt ∙ ap (drop (length a)) behind ∙ drop_front a (cut argv) in
    let string = ap c_string behind ∙ c_string-cut a argv chars in
    rw (string, string_at-pointers argv pkt (sz + 1 + length a) p rest)

length-encoded : (argv : List (List ℕ)) → length (encoded argv) ≡ args_size argv + 1
length-encoded [] = refl
length-encoded (a ∷ argv) = omega (arith, length-append a (encoded argv), length-encoded argv)

-- The whole packet.
abbrev pub packet : ℕ → List (List ℕ) → List ℕ
packet type argv = magic_high ∷ magic_low ∷ type ∷ length argv ∷ encoded argv

-- pack_control fits exactly the arguments whose bytes, with the header of 4 bytes and the end
-- mark, are within the buffer and within NSCTL_MAX_PKT_SZ.
pack_control_lem :
    (stack : List ℕ) (len type : ℕ) (argv : List (List ℕ))
    → Packable argv
    → length argv ≤ 255
    → type ≤ 255
    → args_size argv + 5 ≤ len
    → args_size argv + 5 ≤ max_pkt_sz
    → pack_control stack len type argv ≡ some (packet type argv)
unfolding pack_control
pack_control_lem stack len type argv p n t h k =
    let argc : min (length argv) 0xff ≡ length argv = omega arith in
    let byte : type % 256 ≡ type = omega arith in
    let args = pack_args_lem (min len max_pkt_sz) 4 stack argv p (omega arith) in
    simp (argc, byte, take_all argv, args)

-- The whole packet, with the arguments cut.
abbrev pub cut_packet : ℕ → List (List ℕ) → List ℕ
cut_packet type argv = magic_high ∷ magic_low ∷ type ∷ length argv ∷ cut argv

take_whole : (a : List ℕ) (n : ℕ) → length a ≡ n → take n a ≡ a
take_whole a n h = subst (λ k. take k a ≡ a) h (take_all a)

unpack_packet_lem :
    (type : ℕ) (argv : List (List ℕ))
    → known_type type ≡ true
    → unpack_packet (packet type argv) ≡ parsed type (cut_packet type argv) (pointers 4 argv)
unfolding unpack_packet
unpack_packet_lem type argv known = simp (known, unpack_args_lem argv 4)

unpack_control_lem :
    (bytes : List ℕ)
    → 4 ≤ length bytes
    → length bytes ≤ max_pkt_sz
    → unpack_control bytes (length bytes) ≡ unpack_packet bytes
unfolding unpack_control
unpack_control_lem bytes h k =
    let enough : ltb (length bytes) 4 ≡ false = ground arith in
    let short : ltb max_pkt_sz (length bytes) ≡ false = ground arith in
    simp (enough, short, take_all bytes)

-- For strings of at most 255 characters, none of them 0, at most 255 strings, of a known type
-- and fitting the buffer, pack_control succeeds with a packet that is within it. unpack_control
-- of the packet succeeds, with that type, and when it returns, its local pkt holds the strings
-- that were packed, each ended by a 0, at the offsets where the pointers of argv point.
pub unpack_control-pack_control :
    (stack : List ℕ) (len type : ℕ) (argv : List (List ℕ))
    → Packable argv
    → length argv ≤ 255
    → known_type type ≡ true
    → args_size argv + 5 ≤ len
    → args_size argv + 5 ≤ max_pkt_sz
    → (bytes : List ℕ) × (pack_control stack len type argv ≡ some bytes)
      × length bytes ≤ len
      × ((pkt argv' : List ℕ) × (unpack_control bytes (length bytes) ≡ parsed type pkt argv')
          × (map (string_at pkt) argv' ≡ argv))
unfolding known_type
unpack_control-pack_control stack len type argv p n known h k =
    let size = length-encoded argv in
    let read = unpack_control_lem (packet type argv) (omega (arith, size)) (omega (arith, size)) in
    (
      packet type argv,
      pack_control_lem stack len type argv p n (ground arith) h k,
      omega (arith, size),
      (
        cut_packet type argv,
        pointers 4 argv,
        read ∙ unpack_packet_lem type argv known,
        string_at-pointers argv (cut_packet type argv) 4 p refl,
      ),
    )
