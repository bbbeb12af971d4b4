-- ===== src/Prot/Discard.antt =====
-- `Discard_packets` of daemon/protocol.c: the delivery of packets that every daemon has, and, when a
-- membership change is complete, the delivery of what is left around the two membership messages.
use java_spread_assignment.Base.{
  ℕ, zero, suc, ◌-◌, Bool, true, false, not, Option, none, some, ◌&&◌, ◌||◌, ◌==◌, ltb, leb,
  if◌then◌else◌, length,
}
use java_spread_assignment.Base.Seqs.{◌>>=◌}
use java_spread_assignment.NetTypes.{is_safe}
use java_spread_assignment.Conf
use java_spread_assignment.Conf.{Configuration}
use java_spread_assignment.Memb
use java_spread_assignment.Memb.{is_evs}
use java_spread_assignment.Prot.State.{
  PacketInfo, Prot, emit, entry, max_procs_ring, set_exist, sess_deliver_trans_memb,
  sess_deliver_reg_memb, e_queue, net_clear_partition, lookup_new_members, initiate_conf_reload,
  zero_timeout, lookup_timeout,
}
use java_spread_assignment.Prot.Deliver.{deliver_packet}

-- A packet is delivered if it was not before, and its slot is emptied.
unfoldable pub deliver_and_free : ℕ → Prot → Option Prot
unfolding deliver_packet
deliver_and_free i s =
    (if (s.packets (entry i)).exist == 1 then deliver_packet (entry i) s else some s) >>= λ t.
    some (set_exist (entry i) 0 t)

-- The loop of an ordinary round: an empty slot is a fatal alarm.
unfoldable pub discard_one : ℕ → Prot → Option Prot
unfolding deliver_and_free
discard_one i s = if (s.packets (entry i)).exist == 0 then none else deliver_and_free i s

unfoldable pub discard_loop : ℕ → ℕ → Prot → Option Prot
unfolding discard_one
discard_loop zero i s = some s
discard_loop (suc n) i s = discard_one i s >>= λ t. discard_loop n (suc i) t

-- The messages before the transitional membership: up to the first hole or the first safe message.
unfoldable pub before_transitional : ℕ → ℕ → Prot → Option Prot
unfolding deliver_and_free
before_transitional zero i s = some s
before_transitional (suc n) i s =
    let p = s.packets (entry i) in
    let next =
      (deliver_and_free i s >>= λ t.
      before_transitional n (suc i) (record t { last_discarded = i })) in
    if p.exist == 0
    then none
    else if p.exist == 3
    then some s
    else if is_safe p.head.type
    then some s
    else next

abbrev pub is_known : Option ℕ → Bool
is_known none = false
is_known (some i) = true

-- What is left: after a hole only messages of the committed membership are delivered.
unfoldable pub after_transitional : ℕ → ℕ → Bool → Prot → Option Prot
unfolding deliver_and_free
after_transitional zero i found_hole s = some s
after_transitional (suc n) i found_hole s =
    let p = s.packets (entry i) in
    let hole = after_transitional n (suc i) true (set_exist (entry i) 0 s) in
    let deliver = (deliver_and_free i s >>= λ t. after_transitional n (suc i) found_hole t) in
    let drop = after_transitional n (suc i) found_hole (set_exist (entry i) 0 s) in
    if p.exist == 0
    then none
    else if p.exist == 3
    then hole
    else if not found_hole || is_known (Conf.id_in_conf s.memb.commit_membership p.head.proc_id)
    then deliver
    else drop

-- The first `n` slots are empty.
unfoldable pub all_free : ℕ → (ℕ → PacketInfo) → Bool
all_free zero f = true
all_free (suc n) f = ((f n).exist == 0) && all_free n f

unfoldable pub clear_queues : Prot → Prot
clear_queues s = record s {
  down_queue =
      if length s.down_queue.links == 0
      then s.down_queue
      else record s.down_queue { cur_element = 0 };
  up_queue = λ j. if ltb j max_procs_ring then none else s.up_queue j;
}

-- `Memb_regular`, with the events that it and `Shift_to_op` queue.
unfoldable pub regular : Prot → Option Prot
regular s =
    let t = record s { memb = Memb.install s.my.id s.memb } in
    Conf.leader t.memb.membership >>= λ leader_id.
    let u =
      if leader_id == s.my.id then emit (e_queue lookup_new_members lookup_timeout) t else t in
    some (if s.need_conf_reload then emit (e_queue initiate_conf_reload zero_timeout) u else u)

-- The end of a reload of the configuration that went through a singleton membership.
unfoldable pub leave_reload : Prot → Option Prot
leave_reload s =
    if not s.in_reload_singleton
    then some s
    else if not (s.gstate == 1) || not (Conf.num_procs s.memb.reg_membership == 1)
    then none
    else some (
        emit (e_queue lookup_new_members zero_timeout)
          (emit net_clear_partition (record s { in_reload_singleton = false })))

unfoldable pub reset_sequence : Prot → Prot
reset_sequence s = record s {
  highest_seq = 0;
  highest_fifo_seq = 0;
  my_aru = 0;
  aru = 0;
  last_discarded = 0;
  last_delivered = 0;
  token_counter = 0;
}

-- The transitional membership is computed and delivered.
unfoldable pub deliver_transitional : Prot → Option Prot
deliver_transitional s = Memb.transitional s.conf s.memb >>= λ m.
    some (emit (sess_deliver_trans_memb m.trans_membership m.trans_memb_id) (record s { memb = m }))

-- The regular membership is installed and delivered.
unfoldable pub deliver_regular : Prot → Option Prot
unfolding regular
deliver_regular s = regular (clear_queues s) >>= λ t.
    some (emit (sess_deliver_reg_memb t.memb.reg_membership t.memb.membership_id) t)

unfoldable pub discard_evs : Prot → Option Prot
unfolding before_transitional after_transitional deliver_transitional deliver_regular leave_reload
discard_evs s =
    before_transitional (s.highest_seq - s.last_discarded) (suc s.last_discarded) s >>= λ t.
    deliver_transitional t >>= λ u.
    after_transitional (u.highest_seq - u.last_discarded) (suc u.last_discarded) false u >>= λ v.
    if not (all_free 8192 v.packets)
    then none
    else (deliver_regular v >>= λ w. leave_reload w >>= λ x. some (reset_sequence x))

unfoldable pub discard_regular : Prot → Option Prot
unfolding discard_loop
discard_regular s = discard_loop (s.aru - s.last_discarded) (suc s.last_discarded) s >>= λ t.
    some (record t {
      last_discarded = t.aru;
      last_delivered = if ltb t.last_delivered t.aru then t.aru else t.last_delivered;
    })

unfoldable pub discard_packets : Prot → Option Prot
unfolding discard_evs discard_regular
discard_packets s =
    if leb s.aru s.last_discarded
    then some s
    else if is_evs s.memb.state
    then if not (s.aru == s.last_seq) then some s else discard_evs s
    else discard_regular s
