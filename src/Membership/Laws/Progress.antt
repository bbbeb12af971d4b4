-- ===== src/Membership/Laws/Progress.antt =====
-- The timer that takes a daemon out of each state of daemon/membership.c, and where it leads.
use java_spread_assignment.Base.{
  ℕ, ◌≡◌, ◌≢◌, refl, Bool, true, false, ◌&&◌, [], Option, none, some, drop, ◌==◌, ltb,
  if◌then◌else◌, length, get_elem?,
}
use java_spread_assignment.Base.Seqs.{>>=-eq-some, if_either}
use java_spread_assignment.NetTypes.{no_id, block_regular_delivery}
use java_spread_assignment.Memb.{State, MembersInfo}
use java_spread_assignment.Memb.Reps.{insert_reps, smallest_rep, sort_reps}
use java_spread_assignment.Memb.Sets.{smallest_member}
use java_spread_assignment.Prot.State.{Event, Delay, Prot}
use java_spread_assignment.Prot.Threshold.{set_delivery_threshold}
use java_spread_assignment.Prot.Retrans.{token_body_size}
use java_spread_assignment.Membership.State.{
  Machine, dequeue, is_pending, is_alive_of, set_alive, set_state, queue, alone,
}
use java_spread_assignment.Membership.Shift.{
  shift_to_op, shift_to_seg, shift_to_gather, shift_to_represented, gather_or_represented, gathered,
}
use java_spread_assignment.Membership.Loss.{
  token_loss, lose_token, note_loss, forget_token, memb_init,
}
use java_spread_assignment.Membership.Form1.{
  form_or_fail, create_form1, send_form1, enter_form, back_to_op, form_members, pass_on,
  others_as_potential, form1_reps, form1_token, keep_form1, pending_alone,
}
use java_spread_assignment.Membership.Rings.{rings_bytes}
use java_spread_assignment.Membership.Timers.{timers_of, leaves, Timer, event_of, handle_timer, Run}
use java_spread_assignment.Membership.Laws.Runs.{timers_fit}

-- The timer that a daemon waits for last in a state.
abbrev pub way_out : State → Timer
way_out State.op = Timer.token_loss_event
way_out State.seg = Timer.gather_or_represented_event
way_out State.represented = Timer.shift_to_seg_event
way_out State.gather = Timer.form_or_fail_event
way_out State.form = Timer.token_loss_event
way_out State.evs = Timer.token_loss_event

-- Where that timer leads: a daemon that gathers goes back to its ring, forms a new one, or gathers
-- anew.
abbrev pub is_exit : State → State → Bool
is_exit State.seg State.gather = true
is_exit State.seg State.represented = true
is_exit State.seg _ = false
is_exit State.gather State.op = true
is_exit State.gather State.form = true
is_exit State.gather State.gather = true
is_exit State.gather _ = false
is_exit _ State.seg = true
is_exit _ _ = false

abbrev LeadsTo : State → Machine → Type 0
LeadsTo st t = is_exit st t.prot.memb.state ≡ true

LeadsTo-some : (st : State) (m t : Machine) → some m ≡ some t → LeadsTo st m → LeadsTo st t
LeadsTo-some st m t e f = let q : t ≡ m = cc in rw q f

LeadsTo-either :
    (st : State) (b : Bool) (m t : Machine)
    → LeadsTo st m
    → LeadsTo st t
    → LeadsTo st (if b then m else t)
LeadsTo-either st true m t f g = f
LeadsTo-either st false m t f g = g

lose_token-LeadsTo :
    (st : State) (m t : Machine)
    → is_exit st State.seg ≡ true
    → lose_token m ≡ some t
    → LeadsTo st t
unfolding lose_token shift_to_seg
lose_token-LeadsTo st m t exit h =
    let (s, _, e) =
      >>=-eq-some (set_delivery_threshold block_regular_delivery (set_alive false m).prot) _ h in
    LeadsTo-some st (shift_to_seg (forget_token s (set_alive false m))) t e exit

token_loss-LeadsTo :
    (st : State) (m t : Machine)
    → is_exit st State.seg ≡ true
    → token_loss m ≡ some t
    → LeadsTo st t
unfolding token_loss
token_loss-LeadsTo st m t exit h =
    let (u, _, lost) = >>=-eq-some (note_loss m.prot.memb.state m) _ h in
    lose_token-LeadsTo st u t exit lost

shift_to_represented-LeadsTo : (m : Machine) → LeadsTo State.seg (shift_to_represented m)
unfolding shift_to_represented
shift_to_represented-LeadsTo m = refl

seg_to_gather-LeadsTo : (m : Machine) → LeadsTo State.seg (shift_to_gather m)
unfolding shift_to_gather
seg_to_gather-LeadsTo m = refl

gather_or_represented-LeadsTo :
    (m t : Machine) → gather_or_represented m ≡ some t → LeadsTo State.seg t
unfolding gather_or_represented
gather_or_represented-LeadsTo m t h =
    let u = record m { my_seg_rep = no_id } in
    let (i, _, h1) = >>=-eq-some (smallest_member m.prot.conf (gathered m)) _ h in
    let (id, _, e) = >>=-eq-some (get_elem? (gathered m) i) _ h1 in
    LeadsTo-some State.seg _ t e (
      LeadsTo-either State.seg (id == m.prot.my.id) (shift_to_gather u) (shift_to_represented u)
        (seg_to_gather-LeadsTo u) (shift_to_represented-LeadsTo u))

shift_to_op-LeadsTo : (m : Machine) → LeadsTo State.gather (shift_to_op m)
unfolding shift_to_op
shift_to_op-LeadsTo m =
    let t = set_state State.op m in
    LeadsTo-either State.gather t.prot.need_conf_reload
      (queue Event.initiate_conf_reload Delay.zero_timeout t) t refl refl

enter_form-LeadsTo : (m t : Machine) → enter_form m ≡ some t → LeadsTo State.gather t
unfolding enter_form
enter_form-LeadsTo m t h =
    let u =
      set_alive false (dequeue Event.token_hurry (queue Event.token_loss Delay.form_timeout m)) in
    let (s, _, e) = >>=-eq-some (set_delivery_threshold block_regular_delivery u.prot) _ h in
    LeadsTo-some State.gather _ t e refl

create_form1-LeadsTo :
    (now : ℕ) (m t : Machine) → create_form1 now m ≡ some t → LeadsTo State.gather t
unfolding create_form1 send_form1
create_form1-LeadsTo now m t h =
    let (members, _, h1) = >>=-eq-some (form_members m) _ h in
    let (sorted, _, h2) = >>=-eq-some (sort_reps m.prot.conf m.f_reps.reps) _ h1 in
    let (potential, _, h3) =
      >>=-eq-some (insert_reps m.prot.conf [] (others_as_potential m.prot.my.seg_index sorted)) _
        h2 in
    let reps = form1_reps sorted in
    let tok = form1_token now members reps m in
    let u = keep_form1 now members reps potential m in
    let last : Option (ℕ × MembersInfo) = some (u.prot.my.id, pending_alone tok.members) in
    if_either (ltb token_body_size (rings_bytes tok.rings)) none _ (some t) (λ x. absurd cc)
      (λ x.
        let (v, _, entered) = >>=-eq-some (pass_on last tok reps u) _ x in
        enter_form-LeadsTo (dequeue Event.send_join v) t entered)
      h3

shift_to_gather-LeadsTo : (m : Machine) → LeadsTo State.gather (shift_to_gather m)
unfolding shift_to_gather
shift_to_gather-LeadsTo m = refl

form_or_fail-LeadsTo :
    (now : ℕ) (m t : Machine) → form_or_fail now m ≡ some t → LeadsTo State.gather t
unfolding form_or_fail
form_or_fail-LeadsTo now m t h =
    let (s, _, h1) = >>=-eq-some (smallest_rep m.prot.conf m.f_reps.reps) _ h in
    let back = λ (e : some (back_to_op m) ≡ some t). LeadsTo-some State.gather (back_to_op m) t e (
      shift_to_op-LeadsTo
        (queue Event.lookup_new_members Delay.lookup_timeout (dequeue Event.send_join m))) in
    if_either (s.1.proc_id == m.prot.my.id) _ _ (some t)
      (λ x.
        if_either (is_alive_of m && (length m.f_reps.reps == 1)) (some (back_to_op m)) _ (some t)
          back (λ y. create_form1-LeadsTo now m t y) x)
      (λ x.
        if_either (is_alive_of m) (some (back_to_op m)) _ (some t) back
          (λ y.
            let (potential, _, e) =
              >>=-eq-some (insert_reps m.prot.conf [] (drop 1 m.f_reps.reps)) _ y in
            let u = record m {
              f_members = alone m.prot.my.id m.f_members;
              potential_reps = potential;
            } in
            LeadsTo-some State.gather (shift_to_gather u) t e (shift_to_gather-LeadsTo u))
          x)
      h1

handle_way_out-LeadsTo :
    (now : ℕ) (st : State) (m t : Machine) → handle_timer now (way_out st) m ≡ some t → LeadsTo st t
unfolding handle_timer shift_to_seg
handle_way_out-LeadsTo now State.op m t h = token_loss-LeadsTo State.op m t refl h
handle_way_out-LeadsTo now State.seg m t h = gather_or_represented-LeadsTo m t h
handle_way_out-LeadsTo now State.represented m t h =
    LeadsTo-some State.represented (shift_to_seg m) t h refl
handle_way_out-LeadsTo now State.gather m t h = form_or_fail-LeadsTo now m t h
handle_way_out-LeadsTo now State.form m t h = token_loss-LeadsTo State.form m t refl h
handle_way_out-LeadsTo now State.evs m t h = token_loss-LeadsTo State.evs m t refl h

leaves-is_pending :
    (st : State) (s : Prot)
    → st ≢ State.op
    → leaves st (timers_of s.out) ≡ true
    → is_pending (event_of (way_out st)) s.out ≡ true
leaves-is_pending State.op s n f = absurd (n refl)
leaves-is_pending State.seg s n f = f
leaves-is_pending State.represented s n f = f
leaves-is_pending State.gather s n f = f
leaves-is_pending State.form s n f = f
leaves-is_pending State.evs s n f = f

-- Along every run from the start, a daemon that is not in OP has a timer queued that takes it out
-- of its state: when it fires, a daemon in SEG goes on to GATHER or REPRESENTED, one in REPRESENTED
-- back to SEG, one in GATHER back to OP, on to FORM or to gather anew, and one in FORM or EVS to
-- SEG, unless the handler is a fatal alarm.
pub way_out_queued :
    (m s t : Machine)
    → m.prot.out ≡ []
    → memb_init m ≡ some s
    → Run s t
    → t.prot.memb.state ≢ State.op
    → (is_pending (event_of (way_out t.prot.memb.state)) t.prot.out ≡ true)
      × ((now : ℕ) (u : Machine)
          → handle_timer now
              (way_out t.prot.memb.state)
              (dequeue (event_of (way_out t.prot.memb.state)) t)
            ≡ some u
          → is_exit t.prot.memb.state u.prot.memb.state ≡ true)
way_out_queued m s t o h r n =
    let st = t.prot.memb.state in
    (
      leaves-is_pending st t.prot n (timers_fit m s t o h r).1,
      λ now u e. handle_way_out-LeadsTo now st (dequeue (event_of (way_out st)) t) u e,
    )
