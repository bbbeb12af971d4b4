-- ===== src/Membership/Form2.antt =====
-- `Read_form2` of daemon/membership.c: the second round of the form token fixes the new membership, and
-- what of the old ring is to be recovered. `now` is the time in seconds that the event system gives.
use java_spread_assignment.Base.{
  ℕ, suc, ◌+◌, ◌-◌, Bool, true, false, not, List, [], ◌∷◌, Option, none, some, ◌==◌, ltb, ◌&&◌,
  if◌then◌else◌, length, take, get_elem?, set,
}
use java_spread_assignment.Base.Int.{ℤ, pos, ◌+ℤ◌}
use java_spread_assignment.Base.Seqs.{◌>>=◌}
use java_spread_assignment.NetTypes.{MembershipId, no_id}
use java_spread_assignment.Conf
use java_spread_assignment.Conf.{Proc, Segment, Configuration, seg_at}
use java_spread_assignment.Memb
use java_spread_assignment.Memb.{State, MembersInfo}
use java_spread_assignment.Memb.Sets.{proc_of}
use java_spread_assignment.Memb.Reps.{RingInfo}
use java_spread_assignment.Flow.{max_seq_gap}
use java_spread_assignment.Prot.State.{
  Event, Delay, Token, FormBody, FormToken, Prot, emit, net_send_token, net_send_form,
  net_set_membership,
}
use java_spread_assignment.Membership.State.{
  Machine, call, queue, set_state, set_alive, clear_segments,
}
use java_spread_assignment.Membership.Loss.{reset_last_token}
use java_spread_assignment.Membership.Rings.{ring_bytes}
use java_spread_assignment.Membership.Form1.{int32_bits, to_int32, new_time}
use java_spread_assignment.Membership.Fill.{my_ring}
use java_spread_assignment.Membership.Recover.{recover_ring}

-- The members, the identifier and the number of rings.
abbrev pub form2_fixed_size : ℕ
form2_fixed_size = 528

abbrev pub is_sound_ring : RingInfo → Bool
is_sound_ring r =
    not (ltb r.num_trans 1)
    && (not (ltb (length r.commit) r.num_trans)
        && (not (ltb 128 (length r.commit)) && not (ltb max_seq_gap (length r.holes))))

-- The loop over the rings, `num_bytes` of the token read: no ring is malformed or goes past the end.
unfoldable pub are_sound_rings : ℕ → ℕ → List RingInfo → Bool
are_sound_rings tot_len num_bytes [] = true
are_sound_rings tot_len num_bytes (r ∷ rs) =
    is_sound_ring r
    && (not (ltb tot_len (num_bytes + ring_bytes r))
        && are_sound_rings tot_len (num_bytes + ring_bytes r) rs)

abbrev pub is_id : ℕ → Option ℕ → Bool
is_id id none = false
is_id id (some k) = k == id

-- The tests of the members: the daemon is the next one, and there is room.
unfoldable pub is_for_me : ℕ → MembersInfo → Bool
is_for_me my_id s =
    not (s.num_pending == 0)
    && (ltb (s.num_members + s.num_pending) 128 && is_id my_id (get_elem? s.members s.num_members))

-- What the first of the members makes of the time: the time for the transitional membership (0 if it is
-- not the first), the last time used, and the identifier of the new membership.
pub record NewId : Type 0 where
  pub memb_time : ℕ
  pub last_time : ℤ
  pub id : MembershipId

unfoldable pub name_membership : ℕ → Bool → MembershipId → Machine → NewId
unfolding new_time int32_bits to_int32
name_membership now is_first id m =
    let time = new_time now m.last_time_used in
    if is_first
    then record {
      memb_time = int32_bits time;
      last_time = to_int32 (time +ℤ pos 1);
      id = record { proc_id = m.prot.my.id; time = int32_bits (to_int32 (time +ℤ pos 1)) };
    }
    else record { memb_time = 0; last_time = m.last_time_used; id = id }

-- The processes, put into their segments. An unknown one is a fatal alarm.
unfoldable pub place_members : Configuration → List ℕ → List Segment → Option (List Segment)
place_members cn [] ss = some ss
place_members cn (id ∷ ids) ss = proc_of cn id >>= λ p.
    Conf.append_id_to_seg cn (seg_at ss p.seg_index) p.id >>= λ s.
    place_members cn ids (set ss p.seg_index s)

unfoldable pub future_of : Configuration → MembersInfo → Option Configuration
unfolding place_members clear_segments
future_of cn s =
    let n = s.num_members + s.num_pending in
    if ltb (length s.members) n
    then none
    else (place_members cn (take n s.members) (clear_segments (length cn.segments) cn.segments)
        >>= λ ss. some (record cn { segments = ss }))

-- The time of the transitional membership: the first daemon of the ring sets it.
unfoldable pub trans_time_of : ℕ → NewId → RingInfo → ℕ × ℤ
unfolding new_time int32_bits
trans_time_of now new r =
    if not (r.trans_time == 0)
    then (r.trans_time, new.last_time)
    else if not (new.memb_time == 0)
    then (new.memb_time, new.last_time)
    else (int32_bits (new_time now new.last_time), new_time now new.last_time)

-- The daemon's ring is the last one with its identifier, and gets the time.
unfoldable pub stamp_ring : MembershipId → ℕ → List RingInfo → List RingInfo
unfolding my_ring
stamp_ring id time [] = []
stamp_ring id time (r ∷ rs) = elim (my_ring id rs) [
  | some later ↦ r ∷ stamp_ring id time rs
  | none ↦ (if Memb.is_equal r.memb_id id then record r { trans_time = time } else r) ∷ rs
]

abbrev pub send_twice_form : FormToken → Machine → Machine
send_twice_form t m = call (net_send_form t) (call (net_send_form t) m)

abbrev pub first_token : MembershipId → Token → Token
first_token id h = record h {
  type = 0;
  memb_id = id;
  seq = 0;
  aru = 2147483647;
  aru_last_id = no_id;
  flow_control = pos 0;
  rtr_len = 0;
}

abbrev pub send_twice_first : Token → Machine → Machine
send_twice_first t m = call (net_send_token t []) (call (net_send_token t []) m)

-- The form2 token goes on to the next member, and the last one sends the first regular token.
unfoldable pub send_form2 : FormToken → Machine → Option Machine
send_form2 t m = Conf.last m.prot.memb.future_membership >>= λ last_id. some (
    if not (last_id == m.prot.my.id)
    then (let sent = send_twice_form t m in
        record sent { prot = record sent.prot { token_rounds = 0 } })
    else let sent = send_twice_first (first_token m.prot.memb.future_membership_id t.head) m in
      record sent { prot = record sent.prot { token_rounds = 1 } })

unfoldable pub enter_evs : Machine → Machine
enter_evs m =
    let t = queue Event.token_loss Delay.token_timeout (set_alive true m) in
    set_state State.evs
      (record t { prot = record (reset_last_token t.prot) { received_token_rounds = 0; aru = 0 } })

-- `FC_new_configuration` of daemon/flow_control.c.
abbrev pub new_configuration : Prot → Prot
new_configuration s = record s { last_num_retrans = 0; last_num_sent = 0 }

-- The new membership, as the token and the daemon's configuration give it.
unfoldable pub adopt : MembersInfo → FormToken → NewId → Machine → Option Machine
unfolding future_of
adopt members tok new m = future_of m.prot.conf members >>= λ future.
    Conf.previous m.prot.my future >>= λ previous_id. some (record m {
      last_time_used = new.last_time;
      prot = emit (net_set_membership future) (record (new_configuration m.prot) {
        last_seq = tok.head.seq;
        prev_proc_id = previous_id;
        memb = record m.prot.memb { future_membership = future; future_membership_id = new.id };
      });
    })

-- What is to be committed, and the time of the transitional membership.
abbrev pub take_commit : RingInfo → ℕ → Prot → Prot
take_commit r time s = record s {
  memb = record s.memb {
    future_commit_set = record {
      num_members = length r.commit;
      num_pending = r.num_trans;
      members = r.commit;
    };
    f_trans_memb_time = time;
  };
}

abbrev pub count_me : MembersInfo → MembersInfo
count_me s = record s { num_members = suc s.num_members; num_pending = s.num_pending - 1 }

-- A token that is for the daemon, with the entry of the daemon's ring.
unfoldable pub install_form2 : ℕ → FormToken → MembershipId → RingInfo → Machine → Option Machine
unfolding name_membership adopt recover_ring trans_time_of stamp_ring send_form2 enter_evs
install_form2 now tok id r m =
    let members = count_me tok.members in
    let new = name_membership now (members.num_members == 1) id m in
    adopt members tok new m >>= λ t. recover_ring r t.prot >>= λ s.
    let (time, last_time) = trans_time_of now new r in
    let out : FormToken = record {
      head = record tok.head { proc_id = m.prot.my.id };
      members = members;
      body = FormBody.id_body new.id;
      rings = stamp_ring m.prot.memb.membership_id time tok.rings;
    } in
    send_form2 out (record t { prot = take_commit r time s; last_time_used = last_time }) >>= λ u.
    some (enter_evs u)

-- The tests of the token. `header_ok` says that the header came in one piece of its size, and
-- `tot_len` is the number of bytes behind it.
unfoldable pub is_acceptable : Bool → ℕ → FormToken → Machine → Bool
unfolding are_sound_rings is_for_me
is_acceptable header_ok tot_len tok m =
    header_ok
    && (not (ltb tot_len form2_fixed_size)
        && (Memb.is_equal tok.head.memb_id m.form1_memb_id
            && (is_for_me m.prot.my.id tok.members
                && are_sound_rings tot_len form2_fixed_size tok.rings)))

-- A token that fails a test is dropped, and one without the daemon's ring.
unfoldable pub read_form2 : ℕ → Bool → ℕ → FormToken → Machine → Option Machine
unfolding is_acceptable install_form2 my_ring
read_form2 now header_ok tot_len tok m = elim tok.body [
  | FormBody.reps_body reps ↦ none
  | FormBody.id_body id ↦
      if not (is_acceptable header_ok tot_len tok m)
      then some m
      else elim (my_ring m.prot.memb.membership_id tok.rings) [
        | none ↦ some m
        | some r ↦ install_form2 now tok id r m
      ]
]
