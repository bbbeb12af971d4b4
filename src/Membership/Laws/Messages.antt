-- ===== src/Membership/Laws/Messages.antt =====
-- What a daemon waits for, through the messages and tokens of the membership in daemon/membership.c.
use java_spread_assignment.Base.{
  ℕ, ◌≡◌, Bool, true, false, not, [], ◌∷◌, Option, some, ◌==◌, ltb, if◌then◌else◌, length,
}
use java_spread_assignment.Base.Seqs.{>>=-eq-some}
use java_spread_assignment.NetTypes.{no_id}
use java_spread_assignment.Conf
use java_spread_assignment.Conf.{Proc, Configuration}
use java_spread_assignment.Memb.{State}
use java_spread_assignment.Memb.Reps.{Rep, seg_rep, ring_rep, insert_rep, insert_reps, smallest_rep}
use java_spread_assignment.Prot.State.{Effect, Event, Delay}
use java_spread_assignment.Membership.State.{Machine, call, queue, is_alive_of}
use java_spread_assignment.Membership.Shift.{shift_to_gather, shift_to_represented, scast_alive}
use java_spread_assignment.Membership.Loss.{token_loss}
use java_spread_assignment.Membership.Handlers.{
  is_member, note_member, lost_with, handle_alive, Join, refer_to_leader, first_rep, join_op,
  is_my_rep, join_seg, join_represented, join_gather,
}
use java_spread_assignment.Membership.Timers.{Fits}
use java_spread_assignment.Membership.Laws.Fits.{
  fits_as, Fits-some, Fits-if, shift_to_represented-Fits,
}
use java_spread_assignment.Membership.Laws.Waiting.{
  token_loss-Fits, op_gathers-Fits, scast_alive_once-Fits,
}

-- A conditional whose two branches both leave the timers right.
pub if-Fits :
    (b : Bool) (x y : Option Machine) (t : Machine)
    → (x ≡ some t → Fits t.prot)
    → (y ≡ some t → Fits t.prot)
    → (if b then x else y) ≡ some t
    → Fits t.prot
if-Fits true x y t p q h = p h
if-Fits false x y t p q h = q h

pub lost_with-Fits :
    (memb : Configuration) (id : ℕ) (m t : Machine)
    → Fits m.prot
    → lost_with memb id m ≡ some t
    → Fits t.prot
unfolding lost_with note_member
lost_with-Fits memb id m t f h =
    if-Fits (is_member memb id) _ (some m) t
      (λ x.
        let (u, lost, e) = >>=-eq-some (token_loss m) _ x in
        Fits-some (note_member id u) t e (token_loss-Fits m u f lost))
      (λ e. Fits-some m t e f) h

note_member-Fits : (id : ℕ) (m : Machine) → Fits m.prot → Fits (note_member id m).prot
unfolding note_member
note_member-Fits id m f = f

-- A daemon that is represented waits once more.
still_represented-Fits :
    (m : Machine)
    → m.prot.memb.state ≡ State.represented
    → Fits m.prot
    → Fits (queue Event.shift_to_seg Delay.rep_timeout m).prot
still_represented-Fits m e f = let g = fits_as State.represented m.prot e f in (simp (e, g), simp e)

pub handle_alive-Fits :
    (st : State) (id : ℕ) (m t : Machine)
    → m.prot.memb.state ≡ st
    → Fits m.prot
    → handle_alive st id m ≡ some t
    → Fits t.prot
unfolding handle_alive
handle_alive-Fits State.op id m t s f h = lost_with-Fits m.prot.memb.membership id m t f h
handle_alive-Fits State.seg id m t s f h =
    Fits-some (note_member id m) t h (note_member-Fits id m f)
handle_alive-Fits State.represented id m t s f h = Fits-some _ t h (still_represented-Fits m s f)
handle_alive-Fits State.gather id m t s f h =
    if-Fits (not (is_alive_of m)) _ _ t
      (λ e. Fits-some (note_member id m) t e (note_member-Fits id m f))
      (λ x. lost_with-Fits m.prot.memb.membership id m t f x) h
handle_alive-Fits State.form id m t s f h = Fits-some m t h f
handle_alive-Fits State.evs id m t s f h = lost_with-Fits m.prot.memb.future_membership id m t f h

refer_to_leader-Fits :
    (leader_id : ℕ) (j : Join) (first : Rep) (m t : Machine)
    → Fits m.prot
    → refer_to_leader leader_id j first m ≡ some t
    → Fits t.prot
unfolding refer_to_leader
refer_to_leader-Fits leader_id j first m t f h =
    let refer = call (Effect.net_ucast_refer j.proc_id leader_id ring_rep) m in
    if-Fits (not (first.seg_index == m.prot.my.seg_index)) (some refer) _ t
      (λ e. Fits-some refer t e f)
      (λ x.
        let (id, _, e) =
          >>=-eq-some (Conf.seg_leader m.prot.memb.membership m.prot.my.seg_index) _ x in
        Fits-some (if id == m.prot.my.id then refer else m) t e
          (Fits-if (id == m.prot.my.id) refer m f f))
      h

pub join_op-Fits :
    (j : Join) (m t : Machine)
    → m.prot.memb.state ≡ State.op
    → Fits m.prot
    → join_op j m ≡ some t
    → Fits t.prot
unfolding join_op
join_op-Fits j m t s f h =
    if-Fits (is_member m.prot.memb.membership j.proc_id) _ _ t
      (λ x.
        if-Fits (ltb 1 (length m.prot.conf.segments)) (token_loss m) (some m) t
          (λ y. token_loss-Fits m t f y) (λ e. Fits-some m t e f) x)
      (λ x.
        let (leader_id, _, h1) = >>=-eq-some (Conf.leader m.prot.memb.membership) _ x in
        let (first, _, h2) = >>=-eq-some (first_rep j) _ h1 in
        let u = record m {
          potential_reps = first ∷ [];
          f_members = record m.f_members { num_members = 0; num_pending = 0 };
        } in
        if-Fits (leader_id == m.prot.my.id) (some (shift_to_gather u)) _ t
          (λ e. Fits-some (shift_to_gather u) t e (op_gathers-Fits u (fits_as State.op m.prot s f)))
          (λ y. refer_to_leader-Fits leader_id j first m t f y) h2)
      h

pub join_seg-Fits :
    (j : Join) (m t : Machine)
    → m.prot.memb.state ≡ State.seg
    → Fits m.prot
    → join_seg j m ≡ some t
    → Fits t.prot
unfolding join_seg
join_seg-Fits j m t s f h =
    let (mine, _, e) = >>=-eq-some (is_my_rep j m) _ h in
    let u = record m { my_seg_rep = j.proc_id } in
    let g = shift_to_represented-Fits u (fits_as State.seg m.prot s f) in
    Fits-some _ t e (
      Fits-if mine (scast_alive 1 (shift_to_represented u)) m
        (scast_alive_once-Fits (shift_to_represented u) g) f)

pub join_represented-Fits :
    (j : Join) (m t : Machine)
    → m.prot.memb.state ≡ State.represented
    → Fits m.prot
    → join_represented j m ≡ some t
    → Fits t.prot
unfolding join_represented
join_represented-Fits j m t s f h =
    let (mine, _, e) = >>=-eq-some (is_my_rep j m) _ h in
    let u = queue Event.shift_to_seg Delay.rep_timeout (record m { my_seg_rep = j.proc_id }) in
    let refer = call (Effect.net_ucast_refer j.proc_id m.my_seg_rep seg_rep) m in
    let g : Fits u.prot = still_represented-Fits (record m { my_seg_rep = j.proc_id }) s f in
    Fits-some _ t e (
      Fits-if mine (scast_alive 1 u) _ (scast_alive_once-Fits u g)
        (Fits-if (m.my_seg_rep == no_id) m refer f f))

-- A gatherer whose smallest representative has sent a join waits once more.
still_gathers-Fits :
    (m : Machine)
    → m.prot.memb.state ≡ State.gather
    → Fits m.prot
    → Fits (queue Event.form_or_fail Delay.gather_timeout m).prot
still_gathers-Fits m e f = let g = fits_as State.gather m.prot e f in (simp (e, g), simp e)

pub join_gather-Fits :
    (j : Join) (m t : Machine)
    → m.prot.memb.state ≡ State.gather
    → Fits m.prot
    → join_gather j m ≡ some t
    → Fits t.prot
unfolding join_gather
join_gather-Fits j m t s f h =
    let (first, _, h1) = >>=-eq-some (first_rep j) _ h in
    let (r, _, h2) = >>=-eq-some (insert_rep m.prot.conf m.f_reps.reps first) _ h1 in
    let (potential, _, h3) = >>=-eq-some (insert_reps m.prot.conf m.potential_reps j.reps) _ h2 in
    let (p, _, e) = >>=-eq-some (smallest_rep m.prot.conf r.1) _ h3 in
    let u = record m { f_reps = record m.f_reps { reps = r.1 }; potential_reps = potential } in
    Fits-some _ t e (
      Fits-if (p.1.proc_id == first.proc_id) (queue Event.form_or_fail Delay.gather_timeout u) u
        (still_gathers-Fits u s f) f)
