-- ===== src/Memb.antt =====
-- daemon/membership.c: the state of the membership algorithm that the token protocol reads, the sets
-- of members and representatives, and the installation of a membership.
pub mod Sets
pub mod Sorting
pub mod Insertion
pub mod Reps
pub mod Placement
use java_spread_assignment.Base.{
  ℕ, Bool, true, false, List, [], ◌∷◌, Option, some, ◌&&◌, ◌==◌, if◌then◌else◌, take,
}
use java_spread_assignment.Base.Seqs.{◌>>=◌}
use java_spread_assignment.NetTypes.{MembershipId}
use java_spread_assignment.Conf
use java_spread_assignment.Conf.{Proc, Segment, Configuration, empty_segment}

-- OP, SEG, REPRESENTED, GATHER, FORM and EVS of daemon/membership.h.
pub data State : Type 0 where
  op seg represented gather form evs : State

abbrev pub is_op : State → Bool
is_op State.op = true
is_op _ = false

abbrev pub is_gather : State → Bool
is_gather State.gather = true
is_gather _ = false

abbrev pub is_evs : State → Bool
is_evs State.evs = true
is_evs _ = false

-- The source keeps `num_members` and then `num_pending` identifiers in one array. `Commit_set` has
-- them overlap: its members are the first `num_members`, its pending ones the first `num_pending`.
pub record MembersInfo : Type 0 where
  pub num_members : ℕ
  pub num_pending : ℕ
  pub members : List ℕ

pub record Memb : Type 0 where
  pub state : State
  pub token_alive : Bool
  pub membership : Configuration
  pub membership_id : MembershipId
  pub future_membership : Configuration
  pub future_membership_id : MembershipId
  pub commit_set : MembersInfo
  pub future_commit_set : MembersInfo
  pub trans_membership : Configuration
  pub trans_memb_id : MembershipId
  pub f_trans_memb_time : ℕ
  pub commit_membership : Configuration
  pub reg_membership : Configuration
  pub just_installed : Bool
  pub transitional : Bool
  pub foreign_found : Bool

unfoldable pub active_ptr : Memb → Configuration
active_ptr m = if is_evs m.state then m.future_membership else m.membership

unfoldable pub active_id : Memb → MembershipId
active_id m = if is_evs m.state then m.future_membership_id else m.membership_id

unfoldable pub is_equal : MembershipId → MembershipId → Bool
is_equal m1 m2 = (m1.proc_id == m2.proc_id) && (m1.time == m2.time)

unfoldable pub commit : Memb → Memb
commit m = record m { commit_set = m.future_commit_set }

-- The inner loop over the first members of the set stops at the first that is the process.
unfoldable pub id_among : ℕ → List ℕ → Bool
id_among id [] = false
id_among id (k ∷ ks) = let rest = id_among id ks in if k == id then true else rest

-- One segment of the configuration, and those of its processes that are in the set. `cn` is the
-- daemon's configuration; a process that it does not know is a fatal alarm.
unfoldable pub keep_procs : Configuration → List ℕ → List Proc → Segment → Option Segment
unfolding id_among
keep_procs cn ids [] acc = some acc
keep_procs cn ids (p ∷ ps) acc = elim (id_among p.id ids) [
  | true ↦ Conf.append_id_to_seg cn acc p.id >>= λ acc'. keep_procs cn ids ps acc'
  | false ↦ keep_procs cn ids ps acc
]

unfoldable pub keep_segments : Configuration → List ℕ → List Segment → Option (List Segment)
unfolding keep_procs
keep_segments cn ids [] = some []
keep_segments cn ids (s ∷ ss) = keep_procs cn ids s.procs empty_segment >>= λ kept.
    keep_segments cn ids ss >>= λ rest. some (kept ∷ rest)

-- The configuration cut down to the pending members, and to the members, of `Commit_set`. The leader
-- of an empty transitional membership is a fatal alarm.
unfoldable pub transitional : Configuration → Memb → Option Memb
unfolding keep_segments
transitional cn m =
    let c = m.commit_set in
    keep_segments cn (take c.num_pending c.members) cn.segments >>= λ trans.
    let trans_membership = record m.trans_membership { segments = trans } in
    Conf.leader trans_membership >>= λ first.
    keep_segments cn (take c.num_members c.members) cn.segments >>= λ committed. some (record m {
      transitional = true;
      trans_membership = trans_membership;
      trans_memb_id = record { proc_id = first; time = m.f_trans_memb_time };
      commit_membership = record m.commit_membership { segments = committed };
    })

-- The part of `Memb_regular` that changes the membership's own state; `Shift_to_op` ends it.
unfoldable pub install : ℕ → Memb → Memb
install my_id m = record m {
  state = State.op;
  transitional = false;
  just_installed = true;
  membership = m.future_membership;
  membership_id = m.future_membership_id;
  reg_membership = m.future_membership;
  commit_set = record { num_members = 1; num_pending = 1; members = my_id ∷ [] };
  foreign_found = false;
}
