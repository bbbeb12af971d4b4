-- ===== src/Membership/Loss.antt =====
-- The loss of the token: `Memb_token_loss` and `Backoff_membership` of daemon/membership.c.
use java_spread_assignment.Base.{
  ℕ, zero, suc, ◌-◌, false, not, List, [], ◌∷◌, Option, none, some, ◌==◌, if◌then◌else◌, length,
  drop, set,
}
use java_spread_assignment.Base.Int.{negsuc}
use java_spread_assignment.Base.Seqs.{◌>>=◌}
use java_spread_assignment.NetTypes.{no_id, block_regular_delivery}
use java_spread_assignment.Conf
use java_spread_assignment.Conf.{Proc, Segment, Configuration, seg_at}
use java_spread_assignment.Memb.{State}
use java_spread_assignment.Memb.Reps.{Rep, potential_rep, insert_rep, insert_reps}
use java_spread_assignment.Prot.State.{Event, Prot, entry, set_exist}
use java_spread_assignment.Prot.Bcast.{advance_aru}
use java_spread_assignment.Prot.Threshold.{set_delivery_threshold}
use java_spread_assignment.Membership.State.{
  Machine, dequeue, set_alive, is_alive_of, clear_segments,
}
use java_spread_assignment.Membership.Shift.{shift_to_op, shift_to_seg}

-- A hole that a membership change has filled becomes a hole again.
unfoldable pub clear_dummy : ℕ → Prot → Prot
clear_dummy i s = if (s.packets (entry i)).exist == 3 then set_exist (entry i) 0 s else s

unfoldable pub clear_dummies : ℕ → ℕ → Prot → Prot
unfolding clear_dummy
clear_dummies zero i s = s
clear_dummies (suc n) i s = clear_dummies n (suc i) (clear_dummy i s)

unfoldable pub backoff_membership : Prot → Prot
unfolding clear_dummies
backoff_membership s =
    let t = clear_dummies (s.highest_seq - s.last_discarded) (suc s.last_discarded) s in
    record t {
      aru = t.last_discarded;
      my_aru = advance_aru (t.highest_seq - t.last_discarded) t.packets t.last_discarded;
    }

-- Whom to try in segment `i`: the first of the membership there, or the first of the configuration.
unfoldable pub segment_contact : Configuration → Configuration → ℕ → Option ℕ
segment_contact cn memb i = elim ((seg_at memb.segments i).procs) [
  | [] ↦ Conf.seg_leader cn i
  | p ∷ ps ↦ some p.id
]

-- The loop over the segments but the daemon's own, `n` of them left, from segment `i` on.
unfoldable pub add_segments :
    Configuration → Configuration → ℕ → ℕ → ℕ → ℕ → List Rep → Option (List Rep)
unfolding segment_contact
add_segments cn memb my_seg type zero i rs = some rs
add_segments cn memb my_seg type (suc n) i rs =
    let added =
      (segment_contact cn memb i >>= λ id.
      insert_rep cn rs (record { proc_id = id; type = type; seg_index = i }) >>= λ r. some r.1) in
    (if i == my_seg then some rs else added) >>= λ rs'.
    add_segments cn memb my_seg type n (suc i) rs'

-- The type that `temp_rep` has after the loop over the gathered representatives.
abbrev pub last_type : List Rep → ℕ → ℕ
last_type [] type = type
last_type (r ∷ rs) type = last_type rs r.type

unfoldable pub potentials_of : Configuration → ℕ → List Rep → Machine → Option (List Rep)
unfolding add_segments
potentials_of memb type rs m =
    add_segments m.prot.conf memb m.prot.my.seg_index type (length m.prot.conf.segments) 0 rs

-- The first part, by the state: whom to try to join next. It is a fatal alarm to lose the token in a
-- state in which the daemon has none.
unfoldable pub note_loss : State → Machine → Option Machine
unfolding potentials_of backoff_membership
note_loss State.op m = potentials_of m.prot.memb.membership potential_rep [] m >>= λ rs.
    some (record m { potential_reps = rs })
note_loss State.seg m = none
note_loss State.represented m = none
note_loss State.gather m =
    let others = drop 1 m.f_reps.reps in
    if not (is_alive_of m)
    then none
    else (insert_reps m.prot.conf [] others >>= λ found.
        potentials_of m.prot.memb.membership (last_type others potential_rep) found m >>= λ rs.
        some (record m { potential_reps = rs }))
note_loss State.form m = some m
note_loss State.evs m =
    let t = record m { prot = backoff_membership m.prot } in
    potentials_of t.prot.memb.future_membership potential_rep [] t >>= λ rs.
    some (record t { potential_reps = rs })

abbrev pub or_same : Segment → Option Segment → Segment
or_same s none = s
or_same s (some t) = t

-- `Membership` with the daemon alone in it.
unfoldable pub singleton : Prot → Configuration
unfolding clear_segments
singleton s =
    let cleared = clear_segments (length s.conf.segments) s.memb.membership.segments in
    let mine = seg_at cleared s.my.seg_index in
    record s.memb.membership {
      segments =
          set cleared s.my.seg_index (or_same mine (Conf.append_id_to_seg s.conf mine s.my.id));
    }

abbrev pub reset_last_token : Prot → Prot
reset_last_token s = record s { last_token = record s.last_token { type = 0; seq = 0; aru = 0 } }

-- What stops with the token, `s` being the protocol after the change of its threshold.
unfoldable pub forget_token : Prot → Machine → Machine
unfolding singleton
forget_token s m =
    let u = dequeue Event.lookup_new_members (
      dequeue Event.token_hurry (
        dequeue Event.form_or_fail (
          dequeue Event.send_join (
            dequeue Event.token_loss (record m {
              prot = record s { memb = record s.memb { just_installed = false } };
            }))))) in
    let v = reset_last_token u.prot in
    record u { prot = record v { memb = record v.memb { membership = singleton v } } }

-- The second part, the same in every state.
unfoldable pub lose_token : Machine → Option Machine
unfolding forget_token shift_to_seg
lose_token m =
    let t = set_alive false m in
    set_delivery_threshold block_regular_delivery t.prot >>= λ s.
    some (shift_to_seg (forget_token s t))

unfoldable pub token_loss : Machine → Option Machine
unfolding note_loss lose_token
token_loss m = note_loss m.prot.memb.state m >>= lose_token

-- A membership of the daemon's own, without a token.
unfoldable pub start_alone : Machine → Machine
unfolding singleton
start_alone m =
    let memb =
      singleton (record m.prot { memb = record m.prot.memb { membership = m.prot.conf } }) in
    record m {
      last_time_used = negsuc 0;
      prot = record m.prot {
        memb = record m.prot.memb {
          membership = memb;
          membership_id = record { proc_id = m.prot.my.id; time = no_id };
          transitional = false;
          reg_membership = memb;
          commit_set = record m.prot.memb.commit_set {
            num_pending = 1;
            num_members = 1;
            members = m.prot.my.id ∷ drop 1 m.prot.memb.commit_set.members;
          };
        };
      };
    }

-- `Memb_init`, but for the timeouts that it chooses, which are the delays here.
unfoldable pub memb_init : Machine → Option Machine
unfolding shift_to_op start_alone token_loss
memb_init m = token_loss (start_alone (shift_to_op m))
