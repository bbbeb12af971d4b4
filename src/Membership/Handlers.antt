-- ===== src/Membership/Handlers.antt =====
-- The messages and tokens of the membership algorithm: `Memb_handle_message` and `Memb_handle_token` of
-- daemon/membership.c, and the functions that they choose from.
use java_spread_assignment.Base.{
  ℕ, ◌%◌, Bool, true, false, not, List, [], ◌∷◌, Option, none, some, ◌==◌, ltb, ◌&&◌, if◌then◌else◌,
  length, get_elem?,
}
use java_spread_assignment.Base.Seqs.{◌>>=◌}
use java_spread_assignment.NetTypes.{
  no_id, is_alive, is_join, is_refer, is_regular, is_form1, is_form2,
}
use java_spread_assignment.Conf
use java_spread_assignment.Conf.{Proc, Configuration}
use java_spread_assignment.Memb.{State, MembersInfo}
use java_spread_assignment.Memb.Sets.{insert_member, proc_of}
use java_spread_assignment.Memb.Reps.{Rep, seg_rep, ring_rep, insert_rep, insert_reps, smallest_rep}
use java_spread_assignment.Prot.State.{
  Event, Delay, Packet, FormToken, net_ucast_refer, net_ucast_foreign,
}
use java_spread_assignment.Membership.State.{Machine, call, queue, state_of, is_alive_of}
use java_spread_assignment.Membership.Shift.{
  shift_to_gather, shift_to_represented, scast_alive, lookup_new_members,
}
use java_spread_assignment.Membership.Loss.{token_loss}
use java_spread_assignment.Membership.Fill.{fill_form1}
use java_spread_assignment.Membership.Form2.{read_form2}

abbrev pub is_in : Option ℕ → Bool
is_in none = false
is_in (some i) = true

unfoldable pub is_member : Configuration → ℕ → Bool
is_member memb id = is_in (Conf.id_in_conf memb id)

unfoldable pub note_member : ℕ → Machine → Machine
unfolding insert_member
note_member id m = record m { f_members = (insert_member m.f_members id).1 }

-- A member that looks for others has lost the daemon's token.
unfoldable pub lost_with : Configuration → ℕ → Machine → Option Machine
unfolding note_member is_member
lost_with memb id m =
    if is_member memb id then (token_loss m >>= λ t. some (note_member id t)) else some m

unfoldable pub handle_alive : State → ℕ → Machine → Option Machine
unfolding lost_with
handle_alive State.op id m = lost_with m.prot.memb.membership id m
handle_alive State.seg id m = some (note_member id m)
handle_alive State.represented id m = some (queue Event.shift_to_seg Delay.rep_timeout m)
handle_alive State.gather id m =
    if not (is_alive_of m) then some (note_member id m) else lost_with m.prot.memb.membership id m
handle_alive State.form id m = some m
handle_alive State.evs id m = lost_with m.prot.memb.future_membership id m

-- A join message: its sender, and the members and representatives that the sender has gathered.
pub record Join : Type 0 where
  pub proc_id : ℕ
  pub members : MembersInfo
  pub reps : List Rep

-- Only a leader, or a daemon whose segment's leader the sender may not know, refers the sender on.
unfoldable pub refer_to_leader : ℕ → Join → Rep → Machine → Option Machine
refer_to_leader leader_id j first m =
    let my = m.prot.my in
    let refer = call (net_ucast_refer j.proc_id leader_id ring_rep) m in
    if not (first.seg_index == my.seg_index)
    then some refer
    else (Conf.seg_leader m.prot.memb.membership my.seg_index >>= λ id.
        some (if id == my.id then refer else m))

-- The message's first representative; a message without one makes the source read behind it.
abbrev pub first_rep : Join → Option Rep
first_rep j = get_elem? j.reps 0

unfoldable pub join_op : Join → Machine → Option Machine
unfolding refer_to_leader is_member
join_op j m =
    if is_member m.prot.memb.membership j.proc_id
    then if ltb 1 (length m.prot.conf.segments) then token_loss m else some m
    else (Conf.leader m.prot.memb.membership >>= λ leader_id. first_rep j >>= λ first.
        if leader_id == m.prot.my.id
        then some (
            shift_to_gather (record m {
              potential_reps = first ∷ [];
              f_members = record m.f_members { num_members = 0; num_pending = 0 };
            }))
        else refer_to_leader leader_id j first m)

-- The sender is the representative of the daemon's segment.
unfoldable pub is_my_rep : Join → Machine → Option Bool
is_my_rep j m = proc_of m.prot.conf j.proc_id >>= λ p.
    if not (m.prot.my.seg_index == p.seg_index)
    then some false
    else (first_rep j >>= λ first. some (first.type == seg_rep))

unfoldable pub join_seg : Join → Machine → Option Machine
unfolding is_my_rep
join_seg j m = is_my_rep j m >>= λ mine.
    some (
      if mine
      then scast_alive 1 (shift_to_represented (record m { my_seg_rep = j.proc_id }))
      else m)

unfoldable pub join_represented : Join → Machine → Option Machine
unfolding is_my_rep
join_represented j m = is_my_rep j m >>= λ mine. some (
    if mine
    then scast_alive 1
        (queue Event.shift_to_seg Delay.rep_timeout (record m { my_seg_rep = j.proc_id }))
    else if m.my_seg_rep == no_id
    then m
    else call (net_ucast_refer j.proc_id m.my_seg_rep seg_rep) m)

unfoldable pub join_gather : Join → Machine → Option Machine
join_gather j m = first_rep j >>= λ first. insert_rep m.prot.conf m.f_reps.reps first >>= λ r.
    insert_reps m.prot.conf m.potential_reps j.reps >>= λ potential.
    smallest_rep m.prot.conf r.1 >>= λ s.
    let t = record m { f_reps = record m.f_reps { reps = r.1 }; potential_reps = potential } in
    some
      (if s.1.proc_id == first.proc_id then queue Event.form_or_fail Delay.gather_timeout t else t)

unfoldable pub handle_join : State → Join → Machine → Option Machine
unfolding join_op join_seg join_represented join_gather lost_with
handle_join State.op j m = join_op j m
handle_join State.seg j m = join_seg j m
handle_join State.represented j m = join_represented j m
handle_join State.gather j m = join_gather j m
handle_join State.form j m = some m
handle_join State.evs j m = lost_with m.prot.memb.future_membership j.proc_id m

-- A process that the configuration does not have is not tried.
-- The type stands in an int32 of the message, and is put into an int16.
unfoldable pub try_referred : ℕ → Option Proc → Machine → Option Machine
try_referred type none m = some m
try_referred type (some p) m =
    insert_rep m.prot.conf m.potential_reps
      (record { proc_id = p.id; type = type % 65536; seg_index = p.seg_index })
    >>= λ r. some (record m { potential_reps = r.1 })

-- A refer message names a representative and its type.
unfoldable pub handle_refer : State → ℕ → ℕ → Machine → Option Machine
unfolding try_referred
handle_refer State.gather id type m = try_referred type (proc_of m.prot.conf id) m
handle_refer _ id type m = some m

-- The leader looks for new members; the leader of another segment tells it, once.
unfoldable pub foreign_known : Packet → Machine → Option Machine
foreign_known p m = Conf.leader m.prot.memb.membership >>= λ leader_id.
    let told = call (net_ucast_foreign leader_id p) (call (net_ucast_foreign leader_id p) m) in
    let marked = record told {
      prot = record told.prot { memb = record told.prot.memb { foreign_found = true } };
    } in
    if leader_id == m.prot.my.id
    then some (lookup_new_members m)
    else (Conf.seg_leader m.prot.memb.membership m.prot.my.seg_index >>= λ id.
        some (if (id == m.prot.my.id) && not m.prot.memb.foreign_found then marked else m))

-- A packet of a process that the configuration does not have is ignored.
unfoldable pub foreign_from : Option Proc → Packet → Machine → Option Machine
unfolding foreign_known
foreign_from none p m = some m
foreign_from (some q) p m = foreign_known p m

unfoldable pub handle_foreign : State → Packet → Machine → Option Machine
unfolding foreign_from
handle_foreign State.op p m = foreign_from (proc_of m.prot.conf p.head.proc_id) p m
handle_foreign _ p m = some m

unfoldable pub handle_form1 : State → FormToken → Machine → Option Machine
handle_form1 State.op tok m = Conf.leader m.prot.memb.membership >>= λ leader_id.
    if leader_id == m.prot.my.id then some m else fill_form1 tok m
handle_form1 State.represented tok m = fill_form1 tok m
handle_form1 State.gather tok m = fill_form1 tok m
handle_form1 _ tok m = some m

unfoldable pub handle_form2 : State → ℕ → Bool → ℕ → FormToken → Machine → Option Machine
handle_form2 State.form now header_ok tot_len tok m = read_form2 now header_ok tot_len tok m
handle_form2 _ now header_ok tot_len tok m = some m

-- A message for the membership: its packet, and what its body holds if it is a join.
pub record MembMessage : Type 0 where
  pub packet : Packet
  pub members : MembersInfo
  pub reps : List Rep

unfoldable pub handle_message : MembMessage → Machine → Option Machine
unfolding handle_alive handle_join handle_refer handle_foreign
handle_message msg m =
    let h = msg.packet.head in
    let st = state_of m in
    if is_alive h.type
    then handle_alive st h.proc_id m
    else if is_join h.type
    then handle_join st (record { proc_id = h.proc_id; members = msg.members; reps = msg.reps }) m
    else if is_refer h.type
    then handle_refer st h.memb_id.proc_id h.memb_id.time m
    else if is_regular h.type
    then handle_foreign st msg.packet m
    else some m

unfoldable pub handle_token : ℕ → Bool → ℕ → FormToken → Machine → Option Machine
unfolding handle_form1 handle_form2
handle_token now header_ok tot_len tok m =
    if is_form1 tok.head.type
    then handle_form1 (state_of m) tok m
    else if is_form2 tok.head.type
    then handle_form2 (state_of m) now header_ok tot_len tok m
    else some m
