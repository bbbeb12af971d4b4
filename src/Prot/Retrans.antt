-- ===== src/Prot/Retrans.antt =====
-- `Answer_retrans` of daemon/protocol.c, and the part of `Prot_handle_token` that asks for what the
-- daemon misses. A token's body is the list of its `ring_rtr` entries, as its sender wrote it.
use java_spread_assignment.Base.{
  ℕ, zero, suc, ◌+◌, ◌-◌, ◌*◌, ◌/◌, not, List, [], ◌∷◌, ◌++◌, Option, none, some, ◌&&◌, ◌||◌, ◌==◌,
  ltb, if◌then◌else◌, length,
}
use java_spread_assignment.Base.Seqs.{◌>>=◌}
use java_spread_assignment.NetTypes.{no_id, no_seg, set_endian, set_routed, clear_routed}
use java_spread_assignment.Conf.{Segment, seg_at}
use java_spread_assignment.Memb
use java_spread_assignment.Memb.{is_evs}
use java_spread_assignment.Prot.State.{
  PacketInfo, Packet, Effect, RingRtr, Prot, emit, entry, set_packet, net_ucast, net_scast,
  net_bcast,
}

-- `sizeof(ring_rtr)`, `sizeof(int32)`, `sizeof(token_header)` and `sizeof(token_body)`.
abbrev pub ring_rtr_size : ℕ
ring_rtr_size = 16

abbrev pub seq_size : ℕ
seq_size = 4

abbrev pub token_header_size : ℕ
token_header_size = 40

abbrev pub token_body_size : ℕ
token_body_size = 65467

abbrev pub rtr_bytes : RingRtr → ℕ
rtr_bytes r = ring_rtr_size + length r.seqs * seq_size

-- The length of a body, which is the token's `rtr_len`.
abbrev pub body_bytes : List RingRtr → ℕ
body_bytes [] = 0
body_bytes (r ∷ rs) = rtr_bytes r + body_bytes rs

-- What `Answer_retrans` returns: the number of answers, and whom the daemon's own requests are to be
-- answered to, with the requests of other rings that stay in the token.
pub record Answers : Type 0 where
  pub num_retrans : ℕ
  pub proc_id : ℕ
  pub seg_index : ℕ
  pub kept : List RingRtr

-- `Net_membership` of daemon/network.c: that of the last call of `Net_set_membership`.
abbrev pub net_segments : List Effect → List Segment
net_segments [] = []
net_segments (Effect.net_set_membership memb ∷ calls) = memb.segments
net_segments (c ∷ calls) = net_segments calls

-- The network fills in the header that it is given, which is that of the slot: the marks of the type,
-- what `Net_ucast`, `Net_scast` and `Net_bcast` leave of it, and the daemon's own values.
unfoldable pub ucast_type : ℕ → ℕ
ucast_type t = set_endian t

unfoldable pub scast_type : ℕ → Prot → ℕ → ℕ
scast_type seg_index s t =
    if (seg_index == s.my.seg_index) || (length (seg_at (net_segments s.out) seg_index).procs == 0)
    then set_endian t
    else clear_routed (set_routed (set_endian t))

unfoldable pub bcast_type : ℕ → ℕ
bcast_type t = clear_routed (set_endian (set_routed t))

unfoldable pub stamp_slot : ℕ → ℕ → Prot → Prot
stamp_slot e type s =
    let p = s.packets e in
    let head = record p.head {
      type = type;
      conf_hash = s.conf.hash_code;
      transmiter_id = s.my.id;
    } in
    set_packet e (record p { head = head }) s

-- The packet in slot `e` is sent to the one process that asked, to its segment, or to all.
unfoldable pub resend : RingRtr → ℕ → Prot → Prot
unfolding stamp_slot ucast_type scast_type bcast_type
resend r e s =
    let p = s.packets e in
    let packet : Packet = record { head = p.head; body = p.body } in
    if not (r.proc_id == no_id)
    then stamp_slot e (ucast_type p.head.type) (emit (net_ucast r.proc_id packet) s)
    else if not (r.seg_index == no_seg)
    then stamp_slot e (scast_type r.seg_index s p.head.type) (emit (net_scast r.seg_index packet) s)
    else stamp_slot e (bcast_type p.head.type) (emit (net_bcast packet) s)

-- A request that cannot be answered widens the daemon's own: to all processes, and to all segments
-- if it came from another segment. A request for less than `Aru` is a fatal alarm.
unfoldable pub answer_seq : RingRtr → ℕ → Answers → Prot → Option (Answers × Prot)
unfolding resend
answer_seq r seq a s =
    let p = s.packets (entry seq) in
    if ltb seq s.aru
    then none
    else if not (p.exist == 0)
    then some (record a { num_retrans = suc a.num_retrans }, resend r (entry seq) s)
    else some (
      record a {
        proc_id = no_id;
        seg_index = if r.seg_index == s.my.seg_index then a.seg_index else no_seg;
      },
      s,
    )

unfoldable pub answer_seqs : RingRtr → List ℕ → Answers → Prot → Option (Answers × Prot)
unfolding answer_seq
answer_seqs r [] a s = some (a, s)
answer_seqs r (seq ∷ seqs) a s = answer_seq r seq a s >>= λ n. answer_seqs r seqs n.0 n.1

-- The requests of one ring: those of another ring are copied.
unfoldable pub answer_ring : RingRtr → Answers → Prot → Option (Answers × Prot)
unfolding answer_seqs
answer_ring r a s =
    if Memb.is_equal r.memb_id s.memb.membership_id
    then answer_seqs r r.seqs a s
    else some (record a { kept = a.kept ++ (r ∷ []) }, s)

unfoldable pub answer_rings : List RingRtr → Answers → Prot → Option (Answers × Prot)
unfolding answer_ring
answer_rings [] a s = some (a, s)
answer_rings (r ∷ rs) a s = answer_ring r a s >>= λ n. answer_rings rs n.0 n.1

unfoldable pub answer_retrans : List RingRtr → Prot → Option (Answers × Prot)
unfolding answer_rings
answer_retrans body s =
    answer_rings body
      (record { num_retrans = 0; proc_id = s.my.id; seg_index = s.my.seg_index; kept = [] }) s

-- The sequence numbers after `from` whose slots are empty, at most `allowed` of them. The first
-- argument is the number of rounds.
unfoldable pub missing : ℕ → (ℕ → PacketInfo) → ℕ → ℕ → List ℕ
missing zero packets from allowed = []
missing (suc n) packets from zero = []
missing (suc n) packets from (suc allowed) =
    if (packets (entry (suc from))).exist == 0
    then suc from ∷ missing n packets (suc from) allowed
    else missing n packets (suc from) (suc allowed)

-- With the accelerated ring, packets after the last token that the daemon sent may be on their way.
unfoldable pub max_rtr_seq : Prot → ℕ
max_rtr_seq s =
    if s.flow.accelerated_ring && not (is_evs s.memb.state) then s.last_token.seq else s.highest_seq

-- How many requests fit. The source subtracts in `size_t` and reads the result as an `int`, which is
-- not above 0 where this subtraction stops at 0.
abbrev pub retrans_allowed : List RingRtr → ℕ
retrans_allowed kept = (token_body_size - body_bytes kept - ring_rtr_size) / seq_size

unfoldable pub own_request : Answers → Prot → RingRtr
unfolding missing max_rtr_seq
own_request a s = record {
  memb_id = s.memb.membership_id;
  proc_id = a.proc_id;
  seg_index = a.seg_index;
  seqs = missing (max_rtr_seq s - s.my_aru) s.packets s.my_aru (retrans_allowed a.kept);
}

-- The requests of other rings, and the daemon's own.
unfoldable pub request_retrans : Answers → Prot → List RingRtr
unfolding own_request
request_retrans a s =
    if ltb s.my_aru (max_rtr_seq s) && ltb 1 (retrans_allowed a.kept)
    then a.kept ++ (own_request a s ∷ [])
    else a.kept
