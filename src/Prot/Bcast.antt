-- ===== src/Prot/Bcast.antt =====
-- `Prot_handle_bcast` of daemon/protocol.c: a packet from the network.
use java_spread_assignment.Base.{
  ℕ, zero, suc, ◌-◌, true, not, Option, none, some, ◌&&◌, ◌==◌, ltb, leb, if◌then◌else◌,
}
use java_spread_assignment.Base.Int.{ℤ, pos, negsuc}
use java_spread_assignment.Base.Seqs.{◌>>=◌}
use java_spread_assignment.NetTypes.{
  is_control, is_status, is_fc, is_conf_reload, is_membership, is_hurry, is_regular,
}
use java_spread_assignment.Conf
use java_spread_assignment.Memb
use java_spread_assignment.Memb.{is_op, is_evs}
use java_spread_assignment.Prot.State.{
  PacketHeader, PacketInfo, Packet, Prot, emit, entry, put, stat_handle_message, fc_handle_message,
  memb_handle_message, prot_initiate_conf_reload, e_queue, token_loss, token_hurry, token_timeout,
  hurry_timeout, token_channels_first,
}
use java_spread_assignment.Prot.Deliver.{deliver_agreed_packets, deliver_reliable_packets}
use java_spread_assignment.Prot.Hurry.{leader_id, handle_hurry}

-- `Prot_handle_conf_reload`
unfoldable pub handle_conf_reload : Prot → Prot
handle_conf_reload s =
    if is_op s.memb.state
    then emit prot_initiate_conf_reload s
    else record s { need_conf_reload = true }

unfoldable pub handle_control : Packet → Prot → Prot
unfolding handle_conf_reload
handle_control p s =
    if is_status p.head.type
    then emit (stat_handle_message p) s
    else if is_fc p.head.type
    then emit (fc_handle_message p) s
    else if is_conf_reload p.head.type
    then handle_conf_reload s
    else s

-- Traffic of the own ring shows that the token is alive, so its timers start again.
unfoldable pub restart_timers : Prot → Option Prot
restart_timers s =
    let t = emit (e_queue token_loss token_timeout) s in
    if s.memb.token_alive
    then (leader_id s >>= λ first.
        some (if first == s.my.id then emit (e_queue token_hurry hurry_timeout) t else t))
    else some s

-- The loop that raises `My_aru` to the last packet before the first empty slot. The rounds are those
-- from `My_aru + 1` to `Highest_seq`.
unfoldable pub advance_aru : ℕ → (ℕ → PacketInfo) → ℕ → ℕ
advance_aru zero packets my_aru = my_aru
advance_aru (suc n) packets my_aru =
    let rest = advance_aru n packets (suc my_aru) in
    if (packets (entry (suc my_aru))).exist == 0 then my_aru else rest

unfoldable pub raise_my_aru : Prot → Prot
unfolding advance_aru
raise_my_aru s = record s { my_aru = advance_aru (s.highest_seq - s.my_aru) s.packets s.my_aru }

-- A packet of this round from the predecessor means that all of the previous round is processed.
unfoldable pub prefer_token : PacketHeader → Prot → Prot
prefer_token h s =
    if s.flow.accelerated_ring
      && (not s.token_has_priority
          && (ltb s.received_token_rounds h.token_round && (h.transmiter_id == s.prev_proc_id)))
    then emit token_channels_first (record s { token_has_priority = true })
    else s

unfoldable pub insert_received : Packet → ℕ → Prot → Prot
unfolding prefer_token
insert_received p index s =
    let t = record s {
      packets =
          put s.packets (entry p.head.seq)
            (record { head = p.head; body = p.body; exist = 1; proc_index = index });
    } in
    let u = prefer_token p.head t in
    record u { highest_seq = if ltb u.highest_seq p.head.seq then p.head.seq else u.highest_seq }

unfoldable pub deliver_received : ℕ → Prot → Option Prot
unfolding raise_my_aru
deliver_received seq s =
    if seq == suc s.my_aru
    then deliver_agreed_packets (raise_my_aru s)
    else deliver_reliable_packets seq 1 s

-- A packet of the own membership. A packet of the other byte order is taken as it is after
-- `Flip_frag`. A packet from an unknown process leaves the slot empty; the -1 that it writes to the
-- slot's `proc_index` is overwritten with the slot, and left out.
unfoldable pub handle_regular : Packet → Prot → Option Prot
unfolding restart_timers insert_received deliver_received
handle_regular p s = restart_timers s >>= λ t.
    if leb p.head.seq t.last_discarded
    then some t
    else if not ((t.packets (entry p.head.seq)).exist == 0)
    then some t
    else elim (Conf.proc_by_id_in_conf t.conf p.head.proc_id) [
      | none ↦ some t
      | some (index, q) ↦ deliver_received p.head.seq (insert_received p index t)
    ]

-- `received_bytes` is what `Net_recv` returned.
unfoldable pub handle_bcast : ℤ → Packet → Prot → Option Prot
unfolding handle_control handle_regular
handle_bcast (negsuc n) p s = some s
handle_bcast (pos zero) p s = some s
handle_bcast (pos (suc n)) p s =
    if is_control p.head.type
    then some (handle_control p s)
    else if is_membership p.head.type
    then some (emit (memb_handle_message p) s)
    else if is_hurry p.head.type
    then handle_hurry p.head.proc_id s
    else if not (is_regular p.head.type)
    then some s
    else if not (Memb.is_equal s.memb.membership_id p.head.memb_id)
    then some (emit (memb_handle_message p) s)
    else handle_regular p s
