-- ===== src/Membership/Shift.antt =====
-- The changes of state of daemon/membership.c, and the alive and join messages that go with them.
use java_spread_assignment.Base.{
  ℕ, not, List, [], ◌∷◌, ◌++◌, Option, none, some, ◌==◌, if◌then◌else◌, length, take, get_elem?,
}
use java_spread_assignment.Base.Seqs.{◌>>=◌}
use java_spread_assignment.NetTypes.{no_id}
use java_spread_assignment.Conf
use java_spread_assignment.Conf.{Proc, Segment, Configuration}
use java_spread_assignment.Memb.{State, is_op}
use java_spread_assignment.Memb.Sets.{smallest_member}
use java_spread_assignment.Memb.Reps.{Rep, RepsInfo, ring_rep, seg_rep}
use java_spread_assignment.Prot.State.{
  Event, Delay, net_scast_alive, net_scast_join, net_ucast_join,
}
use java_spread_assignment.Membership.State.{
  Machine, call, queue, dequeue, set_state, state_of, is_alive_of, alone,
}

unfoldable pub shift_to_op : Machine → Machine
shift_to_op m =
    let t = set_state State.op m in
    if t.prot.need_conf_reload then queue Event.initiate_conf_reload Delay.zero_timeout t else t

unfoldable pub shift_to_seg : Machine → Machine
shift_to_seg m =
    let t = set_state State.seg m in
    queue Event.gather_or_represented Delay.seg_timeout (
      queue Event.scast_alive Delay.zero_timeout
        (record t { f_members = alone t.prot.my.id t.f_members }))

-- `F_reps` with the daemon alone in it.
abbrev pub own_rep : ℕ → Machine → RepsInfo
own_rep type m = record m.f_reps {
  reps = record { proc_id = m.prot.my.id; type = type; seg_index = m.prot.my.seg_index } ∷ [];
}

unfoldable pub shift_to_gather : Machine → Machine
shift_to_gather m =
    let t = set_state State.gather m in
    let u = record t { f_reps = own_rep (if is_alive_of t then ring_rep else seg_rep) t } in
    queue Event.form_or_fail Delay.gather_timeout (
      queue Event.send_join Delay.zero_timeout
        (dequeue Event.lookup_new_members (dequeue Event.scast_alive u)))

unfoldable pub shift_to_represented : Machine → Machine
shift_to_represented m = queue Event.shift_to_seg Delay.rep_timeout (
    dequeue Event.gather_or_represented (dequeue Event.scast_alive (set_state State.represented m)))

-- The members that `F_members` has.
abbrev pub gathered : Machine → List ℕ
gathered m = take m.f_members.num_members m.f_members.members

unfoldable pub gather_or_represented : Machine → Option Machine
unfolding shift_to_gather shift_to_represented
gather_or_represented m =
    let t = record m { my_seg_rep = no_id } in
    smallest_member t.prot.conf (gathered t) >>= λ i. get_elem? (gathered t) i >>= λ id.
    some (if id == t.prot.my.id then shift_to_gather t else shift_to_represented t)

-- The message holds `F_members`.
unfoldable pub scast_alive : ℕ → Machine → Machine
scast_alive code m =
    let t = call (net_scast_alive m.prot.my.seg_index m.f_members) m in
    if code == 0 then queue Event.scast_alive Delay.alive_timeout t else t

-- The join message, `F_members` and `F_reps`, to the daemons one after another.
unfoldable pub ucast_joins : List ℕ → Machine → Machine
ucast_joins [] m = m
ucast_joins (id ∷ ids) m = ucast_joins ids (call (net_ucast_join id m.f_members m.f_reps) m)

abbrev pub rep_ids : List Rep → List ℕ
rep_ids [] = []
rep_ids (r ∷ rs) = r.proc_id ∷ rep_ids rs

unfoldable pub send_join : Machine → Machine
unfolding ucast_joins
send_join m =
    let t =
      if not (is_alive_of m)
      then call (net_scast_join m.prot.my.seg_index m.f_members m.f_reps) m
      else m in
    queue Event.send_join Delay.join_timeout (ucast_joins (rep_ids t.potential_reps) t)

-- The processes of the daemon's configuration that a membership does not have.
unfoldable pub missing_of : Configuration → List Proc → List ℕ
missing_of memb [] = []
missing_of memb (p ∷ ps) = elim (Conf.id_in_conf memb p.id) [
  | none ↦ p.id ∷ missing_of memb ps
  | some i ↦ missing_of memb ps
]

unfoldable pub missing_daemons : Configuration → List Segment → List ℕ
unfolding missing_of
missing_daemons memb [] = []
missing_daemons memb (s ∷ ss) = missing_of memb s.procs ++ missing_daemons memb ss

-- Nobody is gathered but the daemon's own ring.
abbrev pub start_lookup : Machine → Machine
start_lookup m = record m {
  potential_reps = [];
  f_reps = own_rep ring_rep m;
  f_members = record m.f_members { num_members = 0; num_pending = 0 };
}

-- In a configuration of one segment the join goes to the whole segment.
unfoldable pub look_around : Machine → Machine
unfolding missing_daemons ucast_joins shift_to_gather
look_around m =
    let ids = missing_daemons m.prot.memb.reg_membership m.prot.conf.segments in
    if length m.prot.conf.segments == 1
    then shift_to_gather (call (net_scast_join m.prot.my.seg_index m.f_members m.f_reps) m)
    else if length ids == 0
    then m
    else shift_to_gather (ucast_joins ids m)

unfoldable pub lookup_new_members : Machine → Machine
unfolding look_around
lookup_new_members m = if is_op (state_of m) then look_around (start_lookup m) else m
