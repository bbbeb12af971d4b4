-- ===== src/Network/Receiving.antt =====
-- The operations of daemon/network.c that receive: which datagrams are taken, which are sent on
-- within the segment, and the partitions that the monitor sets. The buffers that packets arrive in
-- hold any packet, so what arrives is a failure, a datagram too short for a header, or a packet.
use java_spread_assignment.Base.{
  ℕ, zero, suc, ◌+◌, ◌-◌, ◌*◌, ◌%◌, Bool, true, false, not, ◌&&◌, ◌||◌, List, [], Option, none,
  some, ◌==◌, ltb, if◌then◌else◌, length, get_or,
}
use java_spread_assignment.Base.Int.{ℤ, pos, negsuc}
use java_spread_assignment.Base.Seqs.{◌>>=◌}
use java_spread_assignment.NetTypes.{
  MembershipId, is_routed, clear_routed, is_control, is_partition, same_endian, flip_int16,
  flip_int32,
}
use java_spread_assignment.Conf.{Proc, num_procs, proc_by_id_in_conf, proc_ref_by_id_in_conf}
use java_spread_assignment.Prot.State.{Packet, Token}
use java_spread_assignment.Network.{Addressing, Network, Send, set_partition}
use java_spread_assignment.Network.Sending.{send_bcast, unrouted}

unfoldable pub flip_memb_id : MembershipId → MembershipId
flip_memb_id m = record { proc_id = flip_int32 m.proc_id; time = flip_int32 m.time }

unfoldable pub flip_pack : Packet → Packet
unfolding flip_memb_id
flip_pack p = record p {
  head = record p.head {
    type = flip_int32 p.head.type;
    transmiter_id = flip_int32 p.head.transmiter_id;
    proc_id = flip_int32 p.head.proc_id;
    memb_id = flip_memb_id p.head.memb_id;
    seq = flip_int32 p.head.seq;
    token_round = flip_int32 p.head.token_round;
    conf_hash = flip_int32 p.head.conf_hash;
    data_len = flip_int16 p.head.data_len;
  };
}

-- A packet in this machine's byte order.
unfoldable pub in_my_order : Packet → Packet
unfolding flip_pack
in_my_order p = if same_endian p.head.type then p else flip_pack p

-- An int16 field as a number, and back.
abbrev pub int16_of : ℕ → ℤ
int16_of v = if ltb v 32768 then pos v else negsuc (65535 - v)

abbrev pub bits_of : ℤ → ℕ
bits_of (pos k) = k % 65536
bits_of (negsuc k) = 65535 - k % 65536

unfoldable pub flip_signed : ℤ → ℤ
flip_signed v = int16_of (flip_int16 (bits_of v))

unfoldable pub flip_token : Token → Token
unfolding flip_memb_id
flip_token t = record t {
  type = flip_int32 t.type;
  transmiter_id = flip_int32 t.transmiter_id;
  proc_id = flip_int32 t.proc_id;
  memb_id = flip_memb_id t.memb_id;
  seq = flip_int32 t.seq;
  aru = flip_int32 t.aru;
  aru_last_id = flip_int32 t.aru_last_id;
  flow_control = flip_signed t.flow_control;
  rtr_len = flip_int16 t.rtr_len;
  conf_hash = flip_int32 t.conf_hash;
}

pub data Arrival (A : Type 0) : Type 0 where
  failed : ℤ → Arrival A
  short : ℕ → Arrival A
  whole : A → Arrival A

-- What `Net_recv` gives: the packet that goes up, if its result is positive, the daemon's state,
-- what it sent, and whether the end of a partition was queued.
pub record Received (Addr : Type 0) : Type 0 where
  pub taken : Option Packet
  pub net : Network Addr
  pub sends : List (Send Addr)
  pub clear_queued : Bool

abbrev pub nothing : {Addr : Type 0} → Network Addr → Received Addr
nothing n = record { taken = none; net = n; sends = []; clear_queued = false }

-- The i-th int16 of a body.
unfoldable pub partition_entry : Bool → List ℕ → ℕ → ℤ
partition_entry mine body i =
    let v = get_or body (2 * i) 0 + 256 * get_or body (2 * i + 1) 0 in
    int16_of (if mine then v else flip_int16 v)

abbrev pub is_minus_one : ℤ → Bool
is_minus_one (negsuc zero) = true
is_minus_one (negsuc (suc k)) = false
is_minus_one (pos k) = false

-- The partition is set; an entry of -1 for this daemon ends it.
unfoldable pub enter_partition : {Addr : Type 0} → Network Addr → Option (Received Addr)
enter_partition n =
    if is_minus_one (n.partition n.partition_my_index)
    then none
    else some (record (nothing n) { clear_queued = true })

unfoldable pub handle_monitor : {Addr : Type 0} → Network Addr → Packet → Option (Received Addr)
unfolding enter_partition partition_entry
handle_monitor n p =
    if not (is_partition p.head.type)
    then some (record (nothing n) { taken = some p })
    else if not n.dangerous_monitor || ltb (length p.body) (num_procs n.conf * 2)
    then some (nothing n)
    else enter_partition (set_partition (partition_entry (same_endian p.head.type) p.body) n)

unfoldable pub same_component : {Addr : Type 0} → Network Addr → Option (ℕ × Proc) → Bool
same_component n none = false
same_component n (some (i, p)) = is_same (n.partition n.partition_my_index) (n.partition i)
  where
    is_same : ℤ → ℤ → Bool
    is_same (pos j) (pos k) = j == k
    is_same (pos j) (negsuc k) = false
    is_same (negsuc j) (pos k) = false
    is_same (negsuc j) (negsuc k) = j == k

unfoldable pub in_my_component : {Addr : Type 0} → Network Addr → ℕ → Bool
unfolding same_component
in_my_component n proc_id = same_component n (proc_by_id_in_conf n.conf proc_id)

-- A packet that this daemon sends on in its own name.
unfoldable pub renamed : {Addr : Type 0} → Network Addr → Packet → Packet
unfolding unrouted
renamed n p = record p {
  head = record p.head { type = clear_routed p.head.type; transmiter_id = n.my.id };
}

module _ {Addr : Type 0} (a : Addressing Addr) where
  unfoldable pub is_sender : Addr → Option (ℕ × Proc) → Bool
  is_sender src none = false
  is_sender src (some (i, p)) = a.same_ip src (a.proc_addr p)

  -- The checks that a packet and a token have in common: the configuration's hash code, and the
  -- sender's address.
  unfoldable pub is_genuine : Network Addr → Addr → ℕ → ℕ → Bool
  unfolding is_sender
  is_genuine n src conf_hash transmiter_id =
      (conf_hash == n.conf.hash_code) && is_sender src (proc_ref_by_id_in_conf n.conf transmiter_id)

  unfoldable pub recv_token : Network Addr → Addr → Token → Option Token
  unfolding is_genuine in_my_component
  recv_token n src t =
      if is_genuine n src t.conf_hash t.transmiter_id && in_my_component n t.transmiter_id
      then some t
      else none

  -- The token that goes up, if any.
  unfoldable pub net_recv_token : Network Addr → Addr → Arrival Token → Option Token
  unfolding recv_token flip_token
  net_recv_token n src (failed e) = none
  net_recv_token n src (short len) = none
  net_recv_token n src (whole t) = recv_token n src (if same_endian t.type then t else flip_token t)

module _ {Addr : Type 0} (a : Addressing Addr) (dl_sendto : Addr → Packet → ℤ) where
  unfoldable pub hand_up : Network Addr → Packet → Option (Received Addr)
  unfolding renamed in_my_order
  hand_up n p =
      if is_routed p.head.type && n.bcast_needed
      then (send_bcast dl_sendto (in_my_order (renamed n p)) n.bcast_addrs >>= λ s.
          some (record (nothing n) { taken = some (renamed n p); sends = s.sends }))
      else some (record (nothing n) { taken = some (unrouted p) })

  unfoldable pub recv_packet : Network Addr → Addr → Packet → Option (Received Addr)
  unfolding is_genuine hand_up handle_monitor in_my_component
  recv_packet n src p =
      if not (length p.body == p.head.data_len)
        || not (is_genuine a n src p.head.conf_hash p.head.transmiter_id)
      then some (nothing n)
      else if is_control p.head.type
      then handle_monitor n p
      else if (p.head.transmiter_id == n.my.id) || not (in_my_component n p.head.transmiter_id)
      then some (nothing n)
      else hand_up n p

  unfoldable pub net_recv : Network Addr → Addr → Arrival Packet → Option (Received Addr)
  unfolding recv_packet in_my_order
  net_recv n src (failed e) = some (nothing n)
  net_recv n src (short len) = some (nothing n)
  net_recv n src (whole p) = recv_packet n src (in_my_order p)
