-- ===== src/Membership/Form1.antt =====
-- The token that gathers a new membership: `Create_form1` of daemon/membership.c, and `Form_or_fail`,
-- which decides on it. `now` is the time in seconds that the event system gives.
use java_spread_assignment.Base.{
  ℕ, zero, suc, ◌+◌, ◌-◌, ◌%◌, Bool, false, not, List, [], ◌∷◌, ◌++◌, Option, none, some, ◌==◌, ltb,
  ◌&&◌, if◌then◌else◌, length, take, drop, get_elem?,
}
use java_spread_assignment.Base.Int.{ℤ, pos, negsuc, ◌+ℤ◌, ltb_ℤ}
use java_spread_assignment.Base.Seqs.{◌>>=◌}
use java_spread_assignment.NetTypes.{MembershipId, block_regular_delivery}
use java_spread_assignment.Conf.{Proc, Segment}
use java_spread_assignment.Memb.{State, MembersInfo, id_among}
use java_spread_assignment.Memb.Reps.{
  Rep, RepsInfo, potential_rep, ring_rep, insert_reps, smallest_rep, sort_reps, reps_as_id,
}
use java_spread_assignment.Prot.State.{
  Event, Delay, Token, FormBody, FormToken, Prot, net_ucast_token,
}
use java_spread_assignment.Prot.Retrans.{token_body_size}
use java_spread_assignment.Prot.Threshold.{set_delivery_threshold}
use java_spread_assignment.Membership.State.{
  Machine, call, queue, dequeue, set_state, set_alive, is_alive_of, alone,
}
use java_spread_assignment.Membership.Rings.{own_ring, rings_bytes}
use java_spread_assignment.Membership.Shift.{shift_to_op, shift_to_gather, rep_ids}

abbrev pub form1_type : ℕ
form1_type = 4096

abbrev pub form2_type : ℕ
form2_type = 8192

-- The bits of an int32, and the value that an int32 has of a number that is put into it.
unfoldable pub int32_bits : ℤ → ℕ
int32_bits (pos n) = n % 4294967296
int32_bits (negsuc n) = 4294967295 - n % 4294967296

unfoldable pub to_int32 : ℤ → ℤ
unfolding int32_bits
to_int32 z = let v = int32_bits z in if ltb v 2147483648 then pos v else negsuc (4294967295 - v)

-- The time of a new membership identifier, an int32: the clock, or one more than the last time used.
unfoldable pub new_time : ℕ → ℤ → ℤ
unfolding to_int32
new_time now last =
    let clock = to_int32 (pos now) in if ltb_ℤ last clock then clock else to_int32 (last +ℤ pos 1)

-- The processes of a membership, in the order of the ring.
unfoldable pub procs_of : List Segment → List Proc
procs_of [] = []
procs_of (s ∷ ss) = s.procs ++ procs_of ss

abbrev pub ids_of_procs : List Proc → List ℕ
ids_of_procs [] = []
ids_of_procs (p ∷ ps) = p.id ∷ ids_of_procs ps

-- Identifiers written over the front of an array.
abbrev pub write_front : List ℕ → List ℕ → List ℕ
write_front ids array = ids ++ drop (length ids) array

-- A representative other than the daemon is no member.
unfoldable pub drop_reps : ℕ → List ℕ → List ℕ → List ℕ
drop_reps my_id reps [] = []
drop_reps my_id reps (id ∷ ids) =
    let rest = drop_reps my_id reps ids in
    if id_among id reps && not (id == my_id) then rest else id ∷ rest

-- `n - 1`, for a count: the model does not go on with -1.
abbrev pub pred : ℕ → Option ℕ
pred zero = none
pred (suc n) = some n

-- A ring leader's members are those of its ring; then the daemon is the first of the members, and the
-- others are pending.
unfoldable pub form_members : Machine → Option MembersInfo
unfolding procs_of drop_reps
form_members m = get_elem? m.f_reps.reps 0 >>= λ first.
    let ring = ids_of_procs (procs_of m.prot.memb.membership.segments) in
    let is_ring = first.type == ring_rep in
    let members = if is_ring then write_front ring m.f_members.members else m.f_members.members in
    let num = if is_ring then length ring else m.f_members.num_members in
    let valid = drop_reps m.prot.my.id (rep_ids m.f_reps.reps) (take num members) in
    pred (length valid) >>= λ pending.
    some (record { num_members = 1; num_pending = pending; members = write_front valid members })

-- The representatives of other segments, as potential ones.
unfoldable pub others_as_potential : ℕ → List Rep → List Rep
others_as_potential my_seg [] = []
others_as_potential my_seg (r ∷ rs) =
    let rest = others_as_potential my_seg rs in
    if r.seg_index == my_seg then rest else record r { type = potential_rep } ∷ rest

abbrev pub members_info_size : ℕ
members_info_size = 516

abbrev pub reps_info_size : ℕ
reps_info_size = 204

abbrev pub body_size_of : FormBody → ℕ
body_size_of (FormBody.reps_body r) = reps_info_size
body_size_of (FormBody.id_body id) = 8

-- `rtr_len` is the length of what follows the header.
abbrev pub with_length : FormToken → FormToken
with_length t = record t {
  head = record t.head { rtr_len = members_info_size + body_size_of t.body + rings_bytes t.rings };
}

-- A form token is sent twice.
abbrev pub send_twice : ℕ → FormToken → Machine → Machine
send_twice id t m = call (net_ucast_token id t) (call (net_ucast_token id t) m)

-- To the next pending member, to the next representative, or, as a form2 token, with the members and
-- to the daemon that `last` gives.
unfoldable pub pass_on : Option (ℕ × MembersInfo) → FormToken → RepsInfo → Machine → Option Machine
pass_on last t reps m =
    if ltb 0 t.members.num_pending
    then (get_elem? t.members.members t.members.num_members >>= λ id.
        some (send_twice id (with_length t) m))
    else if ltb reps.rep_index (length reps.reps)
    then (get_elem? reps.reps reps.rep_index >>= λ r. some (send_twice r.proc_id (with_length t) m))
    else (last >>= λ to. reps_as_id reps >>= λ garbage. some (
        send_twice to.0
          (with_length (record t {
            head = record t.head { type = form2_type };
            members = to.1;
            body = FormBody.id_body garbage;
          }))
          m))

-- The end of the two functions that send a form token on.
unfoldable pub enter_form : Machine → Option Machine
enter_form m =
    let t =
      set_alive false (dequeue Event.token_hurry (queue Event.token_loss Delay.form_timeout m)) in
    set_delivery_threshold block_regular_delivery t.prot >>= λ s.
    some (set_state State.form (record t { prot = s }))

abbrev pub form1_head : Prot → MembershipId → Token
form1_head s id = record {
  type = form1_type;
  transmiter_id = 0;
  proc_id = s.my.id;
  memb_id = id;
  seq = s.highest_seq + 3333;
  aru = 0;
  aru_last_id = 0;
  flow_control = pos 0;
  rtr_len = 0;
  conf_hash = 0;
}

-- In a membership of its own the daemon is pending in the form2 token that it sends to itself.
abbrev pub pending_alone : MembersInfo → MembersInfo
pending_alone s = record s { num_members = 0; num_pending = 1 }

unfoldable pub is_last : MembersInfo → RepsInfo → Bool
is_last s r = not (ltb 0 s.num_pending) && not (ltb r.rep_index (length r.reps))

-- The token is sent, and the daemon waits for the form2 token. A token that is larger than the buffer
-- is a fatal alarm.
unfoldable pub send_form1 : FormToken → RepsInfo → Machine → Option Machine
unfolding pass_on enter_form
send_form1 tok reps m =
    if ltb token_body_size (rings_bytes tok.rings)
    then none
    else (pass_on (some (m.prot.my.id, pending_alone tok.members)) tok reps m >>= λ t.
        enter_form (dequeue Event.send_join t))

unfoldable pub form1_id : ℕ → Machine → MembershipId
unfolding new_time
form1_id now m = record {
  proc_id = m.prot.my.id;
  time = int32_bits (new_time now m.last_time_used);
}

abbrev pub form1_reps : List Rep → RepsInfo
form1_reps sorted = record { rep_index = 1; reps = sorted }

unfoldable pub form1_token : ℕ → MembersInfo → RepsInfo → Machine → FormToken
unfolding form1_id own_ring
form1_token now members reps m = record {
  head = form1_head m.prot (form1_id now m);
  members = members;
  body = FormBody.reps_body reps;
  rings = own_ring m.prot.my_aru m.prot ∷ [];
}

-- What the leader keeps.
unfoldable pub keep_form1 : ℕ → MembersInfo → RepsInfo → List Rep → Machine → Machine
unfolding new_time form1_id is_last
keep_form1 now members reps potential m = record m {
  last_time_used = new_time now m.last_time_used;
  form1_memb_id = form1_id now m;
  f_members = if is_last members reps then pending_alone members else members;
  f_reps = reps;
  potential_reps = potential;
}

unfoldable pub create_form1 : ℕ → Machine → Option Machine
unfolding form_members others_as_potential send_form1 form1_token keep_form1
create_form1 now m = form_members m >>= λ members. sort_reps m.prot.conf m.f_reps.reps >>= λ sorted.
    insert_reps m.prot.conf [] (others_as_potential m.prot.my.seg_index sorted) >>= λ potential.
    send_form1 (form1_token now members (form1_reps sorted) m) (form1_reps sorted)
      (keep_form1 now members (form1_reps sorted) potential m)

-- Back to the ring that the daemon has still got.
abbrev pub back_to_op : Machine → Machine
back_to_op m =
    shift_to_op (queue Event.lookup_new_members Delay.lookup_timeout (dequeue Event.send_join m))

unfoldable pub form_or_fail : ℕ → Machine → Option Machine
unfolding create_form1 shift_to_gather
form_or_fail now m = smallest_rep m.prot.conf m.f_reps.reps >>= λ s.
    if s.1.proc_id == m.prot.my.id
    then if is_alive_of m && (length m.f_reps.reps == 1)
      then some (back_to_op m)
      else create_form1 now m
    else if is_alive_of m
    then some (back_to_op m)
    else (insert_reps m.prot.conf [] (drop 1 m.f_reps.reps) >>= λ potential. some (
        shift_to_gather
          (record m { f_members = alone m.prot.my.id m.f_members; potential_reps = potential })))
