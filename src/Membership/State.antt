-- ===== src/Membership/State.antt =====
-- The static variables of daemon/membership.c that only the membership algorithm uses, with those of the
-- protocol, which it reads and changes. The timers of the event system are the calls that queue and
-- dequeue them: `is_pending` reads the list of calls.
use java_spread_assignment.Base.{
  ℕ, zero, suc, Bool, true, false, List, [], ◌∷◌, if◌then◌else◌, drop,
}
use java_spread_assignment.Base.Int.{ℤ}
use java_spread_assignment.NetTypes.{MembershipId}
use java_spread_assignment.Conf.{Segment, empty_segment}
use java_spread_assignment.Memb.{State, MembersInfo}
use java_spread_assignment.Memb.Reps.{Rep, RepsInfo}
use java_spread_assignment.Prot.State.{Effect, Event, Delay, Prot, emit, e_queue, e_dequeue}

-- `num_reps` of `Potential_reps` is the length of the list; its `rep_index` is not used.
pub record Machine : Type 0 where
  pub prot : Prot
  pub f_members : MembersInfo
  pub f_reps : RepsInfo
  pub potential_reps : List Rep
  pub my_seg_rep : ℕ
  pub form1_memb_id : MembershipId
  pub last_time_used : ℤ

abbrev pub call : Effect → Machine → Machine
call e m = record m { prot = emit e m.prot }

abbrev pub queue : Event → Delay → Machine → Machine
queue e d m = call (e_queue e d) m

abbrev pub dequeue : Event → Machine → Machine
dequeue e m = call (e_dequeue e) m

-- `State = st`; the copy of it for the monitor, `GlobalStatus.state`, is read nowhere else.
abbrev pub set_state : State → Machine → Machine
set_state st m = record m { prot = record m.prot { memb = record m.prot.memb { state = st } } }

abbrev pub set_alive : Bool → Machine → Machine
set_alive b m = record m { prot = record m.prot { memb = record m.prot.memb { token_alive = b } } }

abbrev pub state_of : Machine → State
state_of m = m.prot.memb.state

abbrev pub is_alive_of : Machine → Bool
is_alive_of m = m.prot.memb.token_alive

-- `F_members` with the daemon alone in it.
abbrev pub alone : ℕ → MembersInfo → MembersInfo
alone id s = record { num_members = 1; num_pending = 0; members = id ∷ drop 1 s.members }

-- The first `n` segments are emptied.
unfoldable pub clear_segments : ℕ → List Segment → List Segment
clear_segments zero ss = ss
clear_segments (suc n) [] = []
clear_segments (suc n) (s ∷ ss) = empty_segment ∷ clear_segments n ss

abbrev pub same_event : Event → Event → Bool
same_event Event.token_loss Event.token_loss = true
same_event Event.token_hurry Event.token_hurry = true
same_event Event.lookup_new_members Event.lookup_new_members = true
same_event Event.initiate_conf_reload Event.initiate_conf_reload = true
same_event Event.deliver_all_reliable Event.deliver_all_reliable = true
same_event Event.deliver_agreed Event.deliver_agreed = true
same_event Event.scast_alive Event.scast_alive = true
same_event Event.gather_or_represented Event.gather_or_represented = true
same_event Event.shift_to_seg Event.shift_to_seg = true
same_event Event.send_join Event.send_join = true
same_event Event.form_or_fail Event.form_or_fail = true
same_event _ _ = false

-- The event is queued: the last call for it is the one that queued it.
abbrev pub is_pending : Event → List Effect → Bool
is_pending e [] = false
is_pending e (Effect.e_queue f d ∷ calls) = if same_event e f then true else is_pending e calls
is_pending e (Effect.e_dequeue f ∷ calls) = if same_event e f then false else is_pending e calls
is_pending e (c ∷ calls) = is_pending e calls
