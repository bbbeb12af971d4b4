-- ===== src/Prot/Deliver.antt =====
-- `Deliver_packet`, `Deliver_reliable_packets` and `Deliver_agreed_packets` of daemon/protocol.c.
-- `none` is a fatal alarm, or memory that the source should not touch.
use java_spread_assignment.Base.{
  ℕ, zero, suc, ◌+◌, ◌-◌, Bool, true, false, List, [], ◌∷◌, ◌++◌, Option, none, some, ◌&&◌, ◌==◌,
  ltb, leb, if◌then◌else◌, length,
}
use java_spread_assignment.Base.Int.{ℤ, pos, negsuc, pos_part, neg_part}
use java_spread_assignment.Base.Seqs.{◌>>=◌}
use java_spread_assignment.NetTypes.{is_reliable, is_safe, regular_bits, reliable_type, agreed_type}
use java_spread_assignment.Memb.{is_evs}
use java_spread_assignment.Prot.State.{
  PacketHeader, PacketInfo, Scatter, Prot, emit, entry, max_procs_ring, put, sess_deliver_message,
}
use java_spread_assignment.Prot.Frag.{later_messages}

abbrev pub is_minus_one : ℤ → Bool
is_minus_one (negsuc zero) = true
is_minus_one _ = false

abbrev pub is_negative : ℤ → Bool
is_negative (negsuc n) = true
is_negative (pos n) = false

-- A reliable message in one packet, which may be delivered out of order.
unfoldable pub is_single_reliable : PacketHeader → Bool
is_single_reliable h = is_reliable h.type && is_minus_one h.frag_index

-- The fragments after the first. A first fragment of negative length makes the loop read in front
-- of the body.
unfoldable pub packet_messages : PacketInfo → Option (List Scatter)
packet_messages p = elim p.head.frag_len [
  | pos n ↦ later_messages (suc p.head.data_len) p.body p.head.data_len n
  | negsuc n ↦ none
]

abbrev pub or_empty : Option Scatter → Scatter
or_empty none = []
or_empty (some m) = m

abbrev pub emit_all : List Scatter → Prot → Prot
emit_all [] s = s
emit_all (m ∷ ms) s = emit_all ms (emit (sess_deliver_message m) s)

-- The message that the first fragment ends or continues, and its place in `Up_queue`.
unfoldable pub up_index : PacketInfo → ℕ
unfolding is_single_reliable
up_index p = if is_single_reliable p.head then max_procs_ring else p.proc_index

unfoldable pub chained : Prot → PacketInfo → Scatter
unfolding up_index
chained s p =
    or_empty (s.up_queue (up_index p))
    ++ (record { buf = p.body; len = pos_part p.head.frag_len } ∷ [])

-- The slot, the up queue and the session after the first fragment is chained.
unfoldable pub push_up : ℕ → PacketInfo → Prot → Prot
unfolding chained
push_up e p s =
    let t = record s {
      packets = put s.packets e (record p { exist = 2 });
      handed_up = p.head.seq ∷ s.handed_up;
    } in
    if is_negative p.head.frag_index
    then record t {
      up_queue = put t.up_queue (up_index p) none;
      out = sess_deliver_message (chained s p) ∷ t.out;
    }
    else record t { up_queue = put t.up_queue (up_index p) (some (chained s p)) }

-- `to_copy` only says which of two equal buffers stays in the slot, so it is no argument here.
unfoldable pub deliver_packet : ℕ → Prot → Option Prot
unfolding packet_messages push_up
deliver_packet e s =
    let p = s.packets e in
    packet_messages p >>= λ later.
    if length (or_empty (s.up_queue (up_index p))) + 1
      == pos_part p.head.frag_index + neg_part p.head.frag_index
    then some (emit_all later (push_up e p s))
    else none

unfoldable pub deliver_reliable_one : ℕ → Prot → Option Prot
unfolding deliver_packet
deliver_reliable_one i s =
    let p = s.packets (entry i) in
    if (p.exist == 1) && is_single_reliable p.head then deliver_packet (entry i) s else some s

unfoldable pub deliver_reliable_loop : ℕ → ℕ → Prot → Option Prot
unfolding deliver_reliable_one
deliver_reliable_loop zero i s = some s
deliver_reliable_loop (suc n) i s =
    deliver_reliable_one i s >>= λ t. deliver_reliable_loop n (suc i) t

-- The loop runs from `start_seq`, or from behind what is delivered, to `start_seq + num_packets - 1`.
unfoldable pub deliver_reliable_packets : ℕ → ℕ → Prot → Option Prot
unfolding deliver_reliable_loop
deliver_reliable_packets start_seq num_packets s =
    let first = if leb start_seq s.last_delivered then suc s.last_delivered else start_seq in
    if is_evs s.memb.state
    then some s
    else if ltb reliable_type s.delivery_threshold
    then some s
    else deliver_reliable_loop (start_seq + num_packets - first) first s

-- One round of the loop: `none` is a fatal alarm, and `false` ends the loop at a safe packet.
unfoldable pub deliver_agreed_one : ℕ → Prot → Option (Bool × Prot)
unfolding deliver_packet
deliver_agreed_one i s =
    let p = s.packets (entry i) in
    if p.exist == 1
    then if is_safe p.head.type
      then some (false, s)
      else (deliver_packet (entry i) s >>= λ t.
          some (true, record t { last_delivered = suc t.last_delivered }))
    else if p.exist == 2
    then if leb agreed_type (regular_bits p.head.type)
      then none
      else some (true, record s { last_delivered = suc s.last_delivered })
    else none

-- The loop goes on, or ends with what it has.
abbrev pub go_on : Bool × Prot → (Prot → Option Prot) → Option Prot
go_on (true, s) next = next s
go_on (false, s) next = some s

unfoldable pub deliver_agreed_loop : ℕ → ℕ → Prot → Option Prot
unfolding deliver_agreed_one
deliver_agreed_loop zero i s = some s
deliver_agreed_loop (suc n) i s =
    deliver_agreed_one i s >>= λ r. go_on r (λ t. deliver_agreed_loop n (suc i) t)

unfoldable pub deliver_agreed_packets : Prot → Option Prot
unfolding deliver_agreed_loop
deliver_agreed_packets s =
    if leb s.my_aru s.last_delivered
    then some s
    else if is_evs s.memb.state
    then some s
    else if ltb agreed_type s.delivery_threshold
    then some s
    else deliver_agreed_loop (s.my_aru - s.last_delivered) (suc s.last_delivered) s
