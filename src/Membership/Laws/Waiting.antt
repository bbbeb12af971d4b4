-- ===== src/Membership/Laws/Waiting.antt =====
-- What a daemon waits for, through the loss of its token, the timers and the messages of
-- daemon/membership.c.
use java_spread_assignment.Base.{
  ◌≡◌, refl, ap, ◌∙◌, ◌⊎◌, inl, inr, true, false, not, [], none, some, ◌==◌, if◌then◌else◌,
  Bool-cases, arith, length, drop,
}
use java_spread_assignment.Base.Seqs.{>>=-eq-some}
use java_spread_assignment.Memb.{State, is_op}
use java_spread_assignment.Memb.Reps.{potential_rep, insert_reps}
use java_spread_assignment.Prot.State.{Effect, Event, Delay}
use java_spread_assignment.Membership.State.{Machine, call, queue, is_alive_of, is_pending}
use java_spread_assignment.Membership.Shift.{
  shift_to_gather, scast_alive, send_join, ucast_joins, rep_ids, lookup_new_members,
  missing_daemons, look_around, start_lookup,
}
use java_spread_assignment.Membership.Loss.{
  note_loss, token_loss, potentials_of, last_type, backoff_membership,
}
use java_spread_assignment.Membership.Timers.{Timers, FitsAs, Fits}
use java_spread_assignment.Membership.Laws.Quiet.{
  Quiet, Quiet-refl, Quiet-trans, Quiet-machine, Quiet-either, backoff_membership-Quiet,
  ucast_joins-Quiet,
}
use java_spread_assignment.Membership.Laws.Fits.{
  fits_as, leaves_as, Quiet-Fits, Quiet-FitsAs, Fits-if, lose_token-Fits, shift_to_gather-Fits,
}

-- The first part of the loss changes no timer, and is a fatal alarm where the daemon has no token.
pub note_loss-Quiet : (st : State) (m t : Machine) → note_loss st m ≡ some t → Quiet m.prot t.prot
unfolding note_loss
note_loss-Quiet State.op m t h =
    let (rs, _, e) = >>=-eq-some (potentials_of m.prot.memb.membership potential_rep [] m) _ h in
    Quiet-machine m.prot (record m { potential_reps = rs }) t e (Quiet-refl m.prot)
note_loss-Quiet State.seg m t h = cc
note_loss-Quiet State.represented m t h = cc
note_loss-Quiet State.gather m t h = elim (Bool-cases (not (is_alive_of m))) [
  | inl b ↦ let k : none ≡ some t = (rw b at h) in cc
  | inr b ↦
      let others = drop 1 m.f_reps.reps in
      let (found, _, h1) = >>=-eq-some (insert_reps m.prot.conf [] others) _ (rw b at h) in
      let (rs, _, e) =
        >>=-eq-some (potentials_of m.prot.memb.membership (last_type others potential_rep) found m)
          _ h1 in
      Quiet-machine m.prot (record m { potential_reps = rs }) t e (Quiet-refl m.prot)
]
note_loss-Quiet State.form m t h = Quiet-machine m.prot m t h (Quiet-refl m.prot)
note_loss-Quiet State.evs m t h =
    let u = record m { prot = backoff_membership m.prot } in
    let (rs, _, e) =
      >>=-eq-some (potentials_of u.prot.memb.future_membership potential_rep [] u) _ h in
    Quiet-machine m.prot (record u { potential_reps = rs }) t e (backoff_membership-Quiet m.prot)

note_loss-shift_to_seg :
    (st : State) (m t : Machine)
    → FitsAs st m.prot
    → note_loss st m ≡ some t
    → is_pending Event.shift_to_seg m.prot.out ≡ false
unfolding note_loss
note_loss-shift_to_seg State.op m t f h = ground arith
note_loss-shift_to_seg State.seg m t f h = ground arith
note_loss-shift_to_seg State.represented m t f h = cc
note_loss-shift_to_seg State.gather m t f h = ground arith
note_loss-shift_to_seg State.form m t f h = ground arith
note_loss-shift_to_seg State.evs m t f h = ground arith

pub token_loss_from-Fits :
    (m t : Machine)
    → is_pending Event.shift_to_seg m.prot.out ≡ false
    → token_loss m ≡ some t
    → Fits t.prot
unfolding token_loss
token_loss_from-Fits m t p h =
    let (u, noted, lost) = >>=-eq-some (note_loss m.prot.memb.state m) _ h in
    let q = note_loss-Quiet m.prot.memb.state m u noted in
    lose_token-Fits u t (ap (λ (x : Timers). x.shift_to_seg) q.timers ∙ p) lost

pub token_loss_unqueued-Fits :
    (m t : Machine) → FitsAs m.prot.memb.state m.prot → token_loss m ≡ some t → Fits t.prot
unfolding token_loss
token_loss_unqueued-Fits m t f h =
    let (u, noted, _) = >>=-eq-some (note_loss m.prot.memb.state m) _ h in
    token_loss_from-Fits m t (note_loss-shift_to_seg m.prot.memb.state m u f noted) h

pub token_loss-Fits : (m t : Machine) → Fits m.prot → token_loss m ≡ some t → Fits t.prot
token_loss-Fits m t f h = token_loss_unqueued-Fits m t f.0 h

-- An alive message changes no timer of another state; the timer that sends it goes on.
pub scast_alive_once-Fits : (m : Machine) → Fits m.prot → Fits (scast_alive 1 m).prot
unfolding scast_alive
scast_alive_once-Fits m f = f

pub scast_alive-Fits :
    (m : Machine) → m.prot.memb.state ≡ State.seg → Fits m.prot → Fits (scast_alive 0 m).prot
unfolding scast_alive
scast_alive-Fits m e f =
    let g = fits_as State.seg m.prot e f in
    let w = leaves_as State.seg m.prot e f in (simp (e, g), simp (e, w))

join_timer-Fits :
    (m : Machine)
    → m.prot.memb.state ≡ State.gather
    → Fits m.prot
    → Fits (queue Event.send_join Delay.join_timeout m).prot
join_timer-Fits m e f =
    let g = fits_as State.gather m.prot e f in
    let w = leaves_as State.gather m.prot e f in (simp (e, g), simp (e, w))

pub send_join-Fits :
    (m : Machine) → m.prot.memb.state ≡ State.gather → Fits m.prot → Fits (send_join m).prot
unfolding send_join
send_join-Fits m e f =
    let b = not (is_alive_of m) in
    let sent = call (Effect.net_scast_join m.prot.my.seg_index m.f_members m.f_reps) m in
    let t = if b then sent else m in
    let q : Quiet m.prot t.prot =
      Quiet-either b m.prot sent m (record { state = refl; alive = refl; timers = refl })
        (Quiet-refl m.prot) in
    let p = Quiet-trans m.prot t.prot _ q (ucast_joins-Quiet (rep_ids t.potential_reps) t) in
    join_timer-Fits (ucast_joins (rep_ids t.potential_reps) t) (p.state ∙ e)
      (Quiet-Fits m.prot _ p f)

pub op_gathers-Fits : (m : Machine) → FitsAs State.op m.prot → Fits (shift_to_gather m).prot
op_gathers-Fits m f = shift_to_gather-Fits m (ground arith) (ground arith) (ground arith)

is_op-true : (st : State) → is_op st ≡ true → st ≡ State.op
is_op-true State.op h = refl
is_op-true State.seg h = cc
is_op-true State.represented h = cc
is_op-true State.gather h = cc
is_op-true State.form h = cc
is_op-true State.evs h = cc

look_around-Fits : (m : Machine) → FitsAs State.op m.prot → Fits m.prot → Fits (look_around m).prot
unfolding look_around
look_around-Fits m o f =
    let ids = missing_daemons m.prot.memb.reg_membership m.prot.conf.segments in
    let one = call (Effect.net_scast_join m.prot.my.seg_index m.f_members m.f_reps) m in
    let q = ucast_joins-Quiet ids m in
    let g : FitsAs State.op (ucast_joins ids m).prot = Quiet-FitsAs State.op m.prot _ q o in
    Fits-if (length m.prot.conf.segments == 1) (shift_to_gather one) _ (op_gathers-Fits one o) (
      Fits-if (length ids == 0) m (shift_to_gather (ucast_joins ids m)) f
        (op_gathers-Fits (ucast_joins ids m) g))

pub lookup_new_members-Fits : (m : Machine) → Fits m.prot → Fits (lookup_new_members m).prot
unfolding lookup_new_members
lookup_new_members-Fits m f = go (Bool-cases (is_op m.prot.memb.state))
  where
    go :
        ((is_op m.prot.memb.state ≡ true) ⊎ (is_op m.prot.memb.state ≡ false))
        → Fits (lookup_new_members m).prot
    go (inl b) =
        let op = is_op-true m.prot.memb.state b in
        rw b (look_around-Fits (start_lookup m) (fits_as State.op m.prot op f) f)
    go (inr b) = rw b f
