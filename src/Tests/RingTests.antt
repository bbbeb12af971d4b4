-- ===== src/Tests/RingTests.antt =====
-- Delivery, stability and the token at concrete inputs.
use java_spread_assignment.Base.{ℕ, ◌≡◌, refl, ◌≢◌, [], ◌∷◌, some, arith, true, ◌≤◌, inr, false}
use java_spread_assignment.Base.Int.{pos, ◌+ℤ◌, ◌-ℤ◌}
use java_spread_assignment.NetTypes
use java_spread_assignment.Conf
use java_spread_assignment.Memb
use java_spread_assignment.Memb.{State}
use java_spread_assignment.Prot.State.{Prot, Token, put}
use java_spread_assignment.Prot.Frag
use java_spread_assignment.Prot.Deliver.{deliver_agreed_packets, deliver_reliable_packets}
use java_spread_assignment.Prot.Discard.{discard_packets}
use java_spread_assignment.Prot.Send.{flush_bcast, send_new_packets}
use java_spread_assignment.Prot.Retrans.{answer_retrans}
use java_spread_assignment.Flow.{allowed}
use java_spread_assignment.Prot.Hurry.{leader_id}
use java_spread_assignment.Prot.Bcast.{raise_my_aru, handle_regular, deliver_received}
use java_spread_assignment.Prot.Token.{
  update_aru, next_arq, stamp_token, send_token, set_timers, check_arq, count_load, process_token,
  deliver_round,
}
use java_spread_assignment.Membership.Laws.Aru.{aru_is_safe}
use java_spread_assignment.Prot.Laws.Agreed.{AgreedDelivery, deliver_agreed_order}
use java_spread_assignment.Prot.Laws.Stable.{StableDelivery, discard_packets_stable}
use java_spread_assignment.Prot.Laws.Token.{
  Raised, raise_my_aru_lem, token_used_once, count_load_replaces,
}
use java_spread_assignment.Prot.Laws.Bcast.{
  timers_restarted, old_packet_ignored, with_packet, new_packet-with_packet,
}
use java_spread_assignment.Prot.Laws.Alarms.{deliver_agreed_packets-in_order}
use java_spread_assignment.Prot.Laws.InOrder.{is_some, frag_count, in_order}
use java_spread_assignment.Tests.Samples.{state, run, token, packet, first_proc}

op_ne_evs : State.op ≢ State.evs
op_ne_evs e = cc

deliver_agreed_order_example : (k : ℕ) × AgreedDelivery state (run (deliver_agreed_packets state)) k
unfolding deliver_agreed_packets Frag.later_messages put NetTypes.is_safe NetTypes.is_reliable
    NetTypes.regular_bits
deliver_agreed_order_example =
    deliver_agreed_order state (run (deliver_agreed_packets state)) (omega arith) (omega arith)
      op_ne_evs (omega arith) refl

-- Packets 1 and 2 are delivered, 3 is passed, and 4 is safe.
delivered_to_three :
    ((run (deliver_agreed_packets state)).last_delivered ≡ 3)
    × ((run (deliver_agreed_packets state)).handed_up ≡ 2 ∷ 1 ∷ [])
unfolding deliver_agreed_packets Frag.later_messages put NetTypes.is_safe NetTypes.is_reliable
    NetTypes.regular_bits
delivered_to_three = (refl, refl)

discard_packets_stable_example : StableDelivery state (run (discard_packets state))
unfolding discard_packets put Frag.later_messages NetTypes.is_reliable
discard_packets_stable_example =
    discard_packets_stable state (run (discard_packets state)) (omega arith) (omega arith) op_ne_evs
      refl

-- Three slots are filled behind number 1.
raise_my_aru_lem_example :
    (k : ℕ) × Raised 3 state.packets 1 (raise_my_aru (record state { my_aru = 1 })).my_aru k
raise_my_aru_lem_example = raise_my_aru_lem (record state { my_aru = 1 }) (omega arith)

abbrev stamped : Token
stamped = next_arq false (stamp_token (token 0x10000 4) state)

abbrev after_token : Prot
after_token =
    run (update_aru stamped (flush_bcast (set_timers false (send_token false stamped [] state))))

abbrev after_round : Prot
after_round = run (process_token 1400 (token 0x10000 4) [] state)

aru_is_safe_example :
    (2 ≤ after_round.aru)
    × (after_round.aru ≤ after_round.my_aru)
    × (after_round.aru ≤ 3)
    × (4 ≤ after_round.my_aru)
unfolding process_token answer_retrans send_new_packets allowed ◌-ℤ◌ ◌+ℤ◌ leader_id Conf.leader
    Memb.active_ptr raise_my_aru flush_bcast NetTypes.get_retrans put deliver_round discard_packets
    Frag.later_messages NetTypes.is_reliable deliver_agreed_packets NetTypes.is_safe
    NetTypes.regular_bits next_arq stamp_token send_token set_timers update_aru
    deliver_reliable_packets
aru_is_safe_example = aru_is_safe 1400 (token 0x10000 4) [] state after_round op_ne_evs refl

token_used_once_example : check_arq (token 0x10000 4) after_token ≡ some (false, after_token)
unfolding update_aru next_arq stamp_token send_token set_timers flush_bcast leader_id Conf.leader
    Memb.active_ptr NetTypes.get_retrans
token_used_once_example =
    token_used_once (token 0x10000 4) state
      (flush_bcast (set_timers false (send_token false stamped [] state))) after_token 1 refl refl

count_load_replaces_example :
    (count_load 2 3 (token 0 4) state).0.flow_control
    ≡ pos 2
      +ℤ pos (count_load 2 3 (token 0 4) state).1.last_num_retrans
      +ℤ pos (count_load 2 3 (token 0 4) state).1.last_num_sent
unfolding ◌+ℤ◌
count_load_replaces_example =
    count_load_replaces 2 3 (token 0 4) state (pos 2) refl (omega arith) (omega arith)

old_packet_ignored_example :
    handle_regular (packet 2) state ≡ some (record state { out = timers_restarted 1 state })
unfolding leader_id Conf.leader Memb.active_ptr
old_packet_ignored_example = old_packet_ignored (packet 2) state 1 refl (inr (omega arith))

new_packet-with_packet_example :
    handle_regular (packet 6) state
    ≡ deliver_received 6 (with_packet (packet 6) 0 (timers_restarted 1 state) state)
unfolding leader_id Conf.leader Memb.active_ptr Conf.proc_by_id_in_conf
new_packet-with_packet_example =
    new_packet-with_packet (packet 6) state 1 0 first_proc refl (omega arith) refl refl

deliver_agreed_packets-in_order_example :
    is_some (deliver_agreed_packets state) ≡ in_order 4 1 state.packets (frag_count state)
deliver_agreed_packets-in_order_example =
    deliver_agreed_packets-in_order state (omega arith) (omega arith) (λ e. cc) (omega arith)

agreed_window_in_order : in_order 4 1 state.packets (frag_count state) ≡ true
unfolding in_order NetTypes.is_safe java_spread_assignment.Prot.Deliver.packet_messages
    Frag.later_messages put java_spread_assignment.Prot.Deliver.up_index NetTypes.is_reliable
    NetTypes.regular_bits
agreed_window_in_order = refl
