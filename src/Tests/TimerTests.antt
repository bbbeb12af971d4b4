-- ===== src/Tests/TimerTests.antt =====
-- The start of a daemon, and the first timer that fires.
use java_spread_assignment.Base.{ℕ, ◌≡◌, refl, true, [], Option, none, some}
use java_spread_assignment.Base.Int.{negsuc}
use java_spread_assignment.Conf
use java_spread_assignment.Memb.{State}
use java_spread_assignment.Prot.State.{Event, Prot}
use java_spread_assignment.NetTypes.{unreliable_type}
use java_spread_assignment.Memb.Sets.{proc_of, smallest_member}
use java_spread_assignment.Memb.Reps.{insert_rep}
use java_spread_assignment.Prot.Threshold.{set_delivery_threshold}
use java_spread_assignment.Membership.Shift.{gather_or_represented}
use java_spread_assignment.Membership.State.{Machine, dequeue, is_pending}
use java_spread_assignment.Membership.Loss.{memb_init}
use java_spread_assignment.Membership.Timers.{Timer, event_of, handle_timer, Step, Run, Fits}
use java_spread_assignment.Membership.Laws.Progress.{way_out_queued, is_exit}
use java_spread_assignment.Membership.Laws.Runs.{timers_fit}
use java_spread_assignment.Tests.Samples.{state, ring_id, all_members}

abbrev pub machine : Machine
machine = record {
  prot = state;
  f_members = all_members;
  f_reps = record { rep_index = 0; reps = [] };
  potential_reps = [];
  my_seg_rep = 0;
  form1_memb_id = ring_id;
  last_time_used = negsuc 0;
}

abbrev result : Option Machine → Machine
result none = machine
result (some m) = m

abbrev started : Machine
started = result (memb_init machine)

abbrev or_prot : Prot → Option Prot → Prot
or_prot s none = s
or_prot s (some t) = t

abbrev gathering : Machine
gathering = result (
    handle_timer 7 Timer.gather_or_represented_event
      (dequeue (event_of Timer.gather_or_represented_event) started))

-- daemon/groups.c lets regular messages through again.
abbrev unblocked : Machine
unblocked = record gathering {
  prot = or_prot gathering.prot (set_delivery_threshold unreliable_type gathering.prot);
}

timers_fit_example : Fits unblocked.prot
unfolding memb_init handle_timer Conf.seg_leader insert_rep proc_of Conf.proc_by_id_in_conf
    set_delivery_threshold gather_or_represented smallest_member
timers_fit_example = timers_fit machine started unblocked refl refl (
    Run.next
      (Run.next Run.here
        (Step.timer 7 Timer.gather_or_represented_event started gathering refl refl))
      (Step.threshold unreliable_type gathering unblocked.prot refl))

way_out_queued_example :
    (is_pending Event.form_or_fail gathering.prot.out ≡ true)
    × ((now : ℕ) (u : Machine)
        → handle_timer now Timer.form_or_fail_event (dequeue Event.form_or_fail gathering) ≡ some u
        → is_exit State.gather u.prot.memb.state ≡ true)
unfolding memb_init handle_timer Conf.seg_leader insert_rep proc_of Conf.proc_by_id_in_conf
    set_delivery_threshold gather_or_represented smallest_member
way_out_queued_example =
    way_out_queued machine started gathering refl refl
      (Run.next Run.here
        (Step.timer 7 Timer.gather_or_represented_event started gathering refl refl))
      (λ e. cc)
