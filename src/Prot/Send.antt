-- ===== src/Prot/Send.antt =====
-- `Prot_new_message`, `Send_new_packets`, `Prot_queue_bcast` and `Prot_flush_bcast` of
-- daemon/protocol.c. `body_size` is `sizeof(packet_body)`, which rests on MAX_PACKET_SIZE of the
-- daemon's utility library.
use java_spread_assignment.Base.{
  ℕ, zero, suc, ◌+◌, Bool, true, false, not, List, [], ◌∷◌, ◌++◌, Option, none, some, ◌&&◌, ◌||◌,
  ◌==◌, ltb, leb, if◌then◌else◌, length, get_elem?, take, replicate,
}
use java_spread_assignment.Base.Int.{ℤ, pos, negsuc, ◌+ℤ◌, ◌-ℤ◌, pos_part}
use java_spread_assignment.Base.Seqs.{◌>>=◌}
use java_spread_assignment.NetTypes.{is_fifo, is_agreed}
use java_spread_assignment.Memb.{is_evs}
use java_spread_assignment.Prot.State.{
  PacketHeader, Element, DownLink, Packet, Prot, emit, entry, put, net_bcast,
  sess_unblock_users_level,
}
use java_spread_assignment.Prot.Frag.{padding, write_int16, frag_header_size}

abbrev pub water_mark : ℕ
water_mark = 500

-- A packet leaves with the number of the token round.
unfoldable pub bcast : Packet → Prot → Prot
bcast p s = emit (net_bcast (record p { head = record p.head { token_round = s.token_rounds } })) s

-- The first `n` packets of the queue are sent, and the rest is the queue.
unfoldable pub send_queued : ℕ → List Packet → Prot → Prot
unfolding bcast
send_queued zero ps s = record s { send_queue = ps }
send_queued (suc n) [] s = record s { send_queue = [] }
send_queued (suc n) (p ∷ ps) s = send_queued n ps (bcast p s)

-- How many packets make room for the new one. The window may have changed, so the number is cut to
-- the queue on both sides.
unfoldable pub num_pack_to_send : Prot → ℕ
num_pack_to_send s =
    let num = length s.send_queue in
    let over = pos_part (pos num -ℤ s.flow.accelerated_window +ℤ pos 1) in
    if not s.flow.accelerated_ring || is_evs s.memb.state
    then num
    else if ltb num over
    then num
    else over

abbrev pub is_zero_window : ℤ → Bool
is_zero_window (pos zero) = true
is_zero_window _ = false

-- The new packet is not queued.
unfoldable pub sends_at_once : Prot → Bool
sends_at_once s =
    not s.flow.accelerated_ring || (is_zero_window s.flow.accelerated_window || is_evs s.memb.state)

unfoldable pub queue_bcast : Packet → Prot → Prot
unfolding send_queued num_pack_to_send sends_at_once
queue_bcast p s =
    let t = send_queued (num_pack_to_send s) s.send_queue s in
    if sends_at_once s then bcast p t else record t { send_queue = t.send_queue ++ (p ∷ []) }

unfoldable pub flush_bcast : Prot → Prot
unfolding send_queued
flush_bcast s = send_queued (length s.send_queue) s.send_queue s

-- What advancing the down queue gives: the index for the fragment just taken, and the queue after it.
pub record Advanced : Type 0 where
  pub frag_index : ℤ
  pub links : List DownLink
  pub cur_element : ℕ
  pub mess_done : Bool

abbrev pub negate : ℕ → ℤ
negate zero = pos 0
negate (suc n) = negsuc n

-- An element behind the end of its message is a fatal alarm.
unfoldable pub advance : DownLink → List DownLink → ℕ → Option Advanced
advance l ls cur =
    let num_elements = length l.mess in
    if ltb (suc cur) num_elements
    then some (record {
      frag_index = pos (suc cur);
      links = l ∷ ls;
      cur_element = suc cur;
      mess_done = false;
    })
    else if suc cur == num_elements
    then some
        (record { frag_index = negate num_elements; links = ls; cur_element = 0; mess_done = true })
    else none

-- The session layer is let go on when the queue is short enough again.
abbrev pub unblock : Advanced → Prot → Prot
unblock a s =
    if a.mess_done && ltb (length a.links) water_mark then emit sess_unblock_users_level s else s

abbrev pub take_advanced : Advanced → Prot → Prot
take_advanced a s =
    unblock a (record s { down_queue = record { links = a.links; cur_element = a.cur_element } })

-- Different types go into one packet if both are fifo or agreed.
unfoldable pub compatible : ℕ → ℕ → Bool
compatible pack_type next_type =
    (pack_type == next_type)
    || ((is_fifo pack_type || is_agreed pack_type) && (is_fifo next_type || is_agreed next_type))

-- A fragment behind a body: padding, whose bytes are unspecified and 0 here, its header, its bytes.
unfoldable pub append_fragment : List ℕ → ℕ → ℤ → Element → List ℕ
unfolding padding write_int16
append_fragment body data_len frag_index e =
    body
    ++ (replicate (padding data_len) 0
        ++ (write_int16 frag_index ++ (write_int16 (pos e.len) ++ take e.len e.buf)))

-- The result of filling a packet.
pub record Filled : Type 0 where
  pub data_len : ℕ
  pub body : List ℕ

-- A new packet from the message at the head of the queue. `transmiter_id` and `conf_hash` are set
-- by the network layer, `token_round` when the packet is sent.
unfoldable pub new_header : DownLink → Element → Prot → PacketHeader
new_header l e s = record {
  type = l.type;
  transmiter_id = 0;
  proc_id = s.my.id;
  memb_id = s.memb.membership_id;
  seq = suc s.highest_seq;
  token_round = 0;
  conf_hash = 0;
  data_len = e.len;
  frag_index = pos 0;
  frag_len = pos e.len;
}

-- The slot of the new packet has to be empty.
unfoldable pub insert_new : Packet → Prot → Option Prot
insert_new p s =
    let e = entry p.head.seq in
    if (s.packets e).exist == 0
    then some (record s {
      packets =
          put s.packets e
            (record { head = p.head; body = p.body; exist = 1; proc_index = s.my_index });
    })
    else none

module _ (body_size : ℕ) where
  -- One more fragment fits behind `data_len` bytes.
  unfoldable pub fits : ℕ → Element → Bool
  fits data_len e = leb (e.len + data_len + padding data_len + frag_header_size) body_size

  -- One round of the loop that fills a packet: the inner `none` is a `break`.
  unfoldable pub fill_links :
      List DownLink → ℕ → ℕ → Filled → Prot → Option (Option (Filled × Prot))
  unfolding fits append_fragment advance compatible
  fill_links [] cur pack_type f s = some none
  fill_links (l ∷ ls) cur pack_type f s = get_elem? l.mess cur >>= λ e.
      if not (fits f.data_len e)
      then some none
      else if not (compatible pack_type l.type)
      then some none
      else (advance l ls cur >>= λ a. some (
          some (
            record {
              data_len = f.data_len + padding f.data_len + frag_header_size + e.len;
              body = append_fragment f.body f.data_len a.frag_index e;
            },
            take_advanced a s,
          )))

  -- Every round takes at least the four bytes of a header, so `body_size` rounds are enough.
  unfoldable pub fill : ℕ → ℕ → Filled → Prot → Option (Filled × Prot)
  unfolding fill_links
  fill zero pack_type f s = none
  fill (suc fuel) pack_type f s =
      fill_links s.down_queue.links s.down_queue.cur_element pack_type f s >>= λ r. elim r [
        | none ↦ some (f, s)
        | some (f', s') ↦ fill fuel pack_type f' s'
      ]

  unfoldable pub send_one : DownLink → List DownLink → Prot → Option Prot
  unfolding fill new_header insert_new advance queue_bcast
  send_one l ls s = get_elem? l.mess s.down_queue.cur_element >>= λ e.
      advance l ls s.down_queue.cur_element >>= λ a.
      let head = record (new_header l e s) { frag_index = a.frag_index } in
      let t =
        take_advanced a (record s {
          highest_seq = suc s.highest_seq;
          highest_fifo_seq = suc s.highest_fifo_seq;
        }) in
      fill (suc body_size) l.type (record { data_len = e.len; body = take e.len e.buf }) t >>= λ r.
      let p : Packet = record { head = record head { data_len = r.0.data_len }; body = r.0.body } in
      insert_new p (queue_bcast p r.1)

  unfoldable pub send_from : List DownLink → Prot → Option (Bool × Prot)
  unfolding send_one
  send_from [] s = some (false, s)
  send_from (l ∷ ls) s = send_one l ls s >>= λ t. some (true, t)

  -- The first argument is the number of packets still allowed, the second the number sent.
  unfoldable pub send_loop : ℕ → ℕ → Prot → Option (ℕ × Prot)
  unfolding send_from
  send_loop zero num_sent s = some (num_sent, s)
  send_loop (suc n) num_sent s = send_from s.down_queue.links s >>= λ r. elim r.0 [
    | true ↦ send_loop n (suc num_sent) r.1
    | false ↦ some (num_sent, r.1)
  ]

  unfoldable pub send_new_packets : ℤ → Prot → Option (ℕ × Prot)
  unfolding send_loop
  send_new_packets num_allowed s = send_loop (pos_part num_allowed) 0 s
