-- ===== src/Tests/FormTests.antt =====
-- A form2 token that installs a membership, one that is dropped, and the slots and times around it.
use java_spread_assignment.Base.{
  ℕ, ◌≡◌, ◌≢◌, refl, ◌≤◌, ◌<◌, ◌⊎◌, true, false, List, [], ◌∷◌, Option, none, some, arith,
}
use java_spread_assignment.Base.Int.{ltb_ℤ, ◌+ℤ◌}
use java_spread_assignment.Memb.{State, is_equal}
use java_spread_assignment.Memb.Reps.{Rep, RingInfo, insert_rep}
use java_spread_assignment.Memb.Sets.{proc_of}
use java_spread_assignment.Memb.Placement.{Inserted, insert_rep-Inserted}
use java_spread_assignment.Conf
use java_spread_assignment.Prot.State.{FormBody, FormToken, entry, put}
use java_spread_assignment.Prot.Discard.{discard_packets}
use java_spread_assignment.Prot.Frag.{later_messages}
use java_spread_assignment.NetTypes.{is_reliable}
use java_spread_assignment.Prot.Laws.Token.{Raised}
use java_spread_assignment.Membership.State.{Machine}
use java_spread_assignment.Membership.Loss.{backoff_membership}
use java_spread_assignment.Membership.Recover.{recompute_my_aru}
use java_spread_assignment.Membership.Form1.{keep_form1}
use java_spread_assignment.Membership.Form2.{read_form2, name_membership, trans_time_of}
use java_spread_assignment.Membership.Handlers.{handle_form2}
use java_spread_assignment.Membership.Laws.Backoff.{cleared, backoff_membership_lem}
use java_spread_assignment.Membership.Laws.Recount.{Held, recompute_my_aru_lem}
use java_spread_assignment.Membership.Laws.Outcome.{Installed, form2_outcome}
use java_spread_assignment.Membership.Laws.Rejected.{form2_dropped}
use java_spread_assignment.Membership.Laws.Times.{times_grow}
use java_spread_assignment.Tests.Samples.{state, conf, last_proc, ring_id, memb_in, token}
use java_spread_assignment.Tests.TimerTests.{machine}

abbrev forming : Machine
forming = record machine { prot = record state { memb = memb_in State.form } }

abbrev ring : RingInfo
ring = record {
  memb_id = ring_id;
  trans_time = 5;
  aru = 2;
  highest_seq = 4;
  holes = [];
  num_trans = 1;
  commit = 2 ∷ [];
}

abbrev form2 : FormToken
form2 = record {
  head = token 8192 0;
  members = record { num_members = 1; num_pending = 2; members = 1 ∷ 2 ∷ 3 ∷ [] };
  body = FormBody.id_body ring_id;
  rings = ring ∷ [];
}

abbrev result : Option Machine → Machine
result none = forming
result (some m) = m

abbrev installed : Machine
installed = result (handle_form2 State.form 7 true 560 form2 forming)

form2_outcome_example :
    (installed ≡ forming) ⊎ ((State.form ≡ State.form) × Installed true 560 form2 forming installed)
unfolding handle_form2 read_form2 is_equal proc_of Conf.proc_by_id_in_conf Conf.append_id_to_seg
    Conf.previous Conf.id_in_procs_from discard_packets later_messages put is_reliable Conf.last
form2_outcome_example = form2_outcome State.form 7 true 560 form2 forming installed refl

form2_dropped_example : handle_form2 State.form 7 false 560 form2 forming ≡ some forming
form2_dropped_example =
    form2_dropped State.form 7 false 560 form2 ring_id forming refl (λ t. cc t.1.header)

backoff_membership_lem_example :
    let t = backoff_membership state in
    (t ≡ record state { packets = t.packets; my_aru = t.my_aru; aru = 0 })
    × ((j : ℕ) → 0 < j → j ≤ 4 → t.packets (entry j) ≡ cleared (state.packets (entry j)))
    × ((e : ℕ) → ((j : ℕ) → 0 < j → j ≤ 4 → entry j ≢ e) → t.packets e ≡ state.packets e)
    × ((k : ℕ) × Raised 4 t.packets 0 t.my_aru k)
backoff_membership_lem_example = backoff_membership_lem state

recompute_my_aru_lem_example :
    (state ≡ record state { my_aru = 4 }) × ((k : ℕ) × Held 4 state.packets 0 4 k)
unfolding recompute_my_aru
recompute_my_aru_lem_example = recompute_my_aru_lem state state refl

abbrev other : Rep
other = record { proc_id = 3; type = 2; seg_index = 1 }

abbrev potential : Rep
potential = record other { type = 0 }

insert_rep-Inserted_example :
    (r : ℕ × List Rep) × (insert_rep conf (potential ∷ []) other ≡ some r)
    × Inserted 1 (potential ∷ []) r
unfolding proc_of Conf.proc_by_id_in_conf
insert_rep-Inserted_example =
    insert_rep-Inserted conf (potential ∷ []) other last_proc (omega arith) refl refl (omega arith)

times_grow_example :
    (ltb_ℤ machine.last_time_used
        (keep_form1 7 form2.members forming.f_reps [] forming).last_time_used
      ≡ true)
    × (ltb_ℤ machine.last_time_used (name_membership 7 true ring_id forming).last_time ≡ true)
    × (ltb_ℤ
          (trans_time_of 7 (name_membership 7 false ring_id forming) ring).1
          machine.last_time_used
        ≡ false)
unfolding ◌+ℤ◌
times_grow_example =
    times_grow 7 form2.members forming.f_reps [] ring_id ring forming (omega arith)
      (omega arith, omega arith)
