-- ===== src/Membership/Laws/Runs.antt =====
-- The invariant of the timers along every run of the membership algorithm of daemon/membership.c.
use java_spread_assignment.Base.{
  ℕ, ◌≡◌, refl, inl, inr, ap, Bool, Bool-cases, true, false, [], Option, none, some, if◌then◌else◌,
  arith,
}
use java_spread_assignment.Memb.{State, is_op}
use java_spread_assignment.Prot.State.{Event, Prot}
use java_spread_assignment.Membership.State.{Machine, is_pending, dequeue}
use java_spread_assignment.Membership.Shift.{shift_to_op}
use java_spread_assignment.Membership.Loss.{memb_init, start_alone}
use java_spread_assignment.Membership.Timers.{Timers, timers_of, fits, leaves, Fits, Step, Run}
use java_spread_assignment.Membership.Laws.Fits.{Quiet-Fits, &&-true}
use java_spread_assignment.Membership.Laws.Quiet.{Quiet, Quiet-if, set_delivery_threshold-Quiet}
use java_spread_assignment.Membership.Laws.Admission.{prot_token_hurry-Quiet}
use java_spread_assignment.Conf
use java_spread_assignment.Conf.{Proc}
use java_spread_assignment.Prot.Reload.{
  Reload, signal_subsystems, partition_all, initiate_conf_reload, token_hurry_event,
}
use java_spread_assignment.Membership.Laws.Waiting.{token_loss-Fits, token_loss_from-Fits}
use java_spread_assignment.Membership.Laws.Rounds.{IsRound}
use java_spread_assignment.Membership.Laws.Daemon.{handle_token-IsRound}
use java_spread_assignment.Membership.Laws.Packets.{
  handle_bcast-IsRound, new_message-Quiet, deliver_all_reliable_event-Quiet,
  deliver_agreed_event-Quiet,
}
use java_spread_assignment.Membership.Laws.Steps.{handle_message-Fits, handle_token-Fits}
use java_spread_assignment.Membership.Laws.Firing.{fired-is_awaited, handle_timer-Fits}

with_token :
    (st : State) (s : Prot) (x : Timers)
    → s.memb.token_alive ≡ true
    → fits st s.memb.token_alive x ≡ true
    → fits st s.memb.token_alive (record x { token_loss = true }) ≡ true
with_token State.op s x a f = f
with_token State.seg s x a f = let k : false ≡ true = (rw a at f) in cc
with_token State.represented s x a f = let k : false ≡ true = (rw a at f) in cc
with_token State.gather s x a f = ground arith
with_token State.form s x a f = f
with_token State.evs s x a f = f

leaves_with_token :
    (st : State) (x : Timers)
    → leaves st x ≡ true
    → leaves st (record x { token_loss = true }) ≡ true
leaves_with_token State.op x f = f
leaves_with_token State.seg x f = f
leaves_with_token State.represented x f = f
leaves_with_token State.gather x f = f
leaves_with_token State.form x f = refl
leaves_with_token State.evs x f = refl

IsRound-Fits : (s t : Prot) → IsRound s t → Fits s → Fits t
IsRound-Fits s t r f =
    let same : fits s.memb.state t.memb.token_alive (timers_of t.out) ≡ true = elim r.timers [
      | inl e ↦ simp (r.alive, e, f.0)
      | inr (a, e) ↦ simp (r.alive, e, with_token s.memb.state s (timers_of s.out) a f.0)
    ] in
    let out : leaves s.memb.state (timers_of t.out) ≡ true = elim r.timers [
      | inl e ↦ simp (e, f.1)
      | inr (a, e) ↦ simp (e, leaves_with_token s.memb.state (timers_of s.out) f.1)
    ] in
    elim r.state [
      | inl e ↦ (simp (e, same), simp (e, out))
      | inr (evs, op) ↦
          let g : fits State.evs t.memb.token_alive (timers_of t.out) ≡ true = (rw evs at same) in
          (simp (op, g), simp op)
    ]

-- An event that is none of the timers.
dequeued-Fits :
    (e : Event) (m : Machine)
    → timers_of (dequeue e m).prot.out ≡ timers_of m.prot.out
    → Fits m.prot
    → Fits (dequeue e m).prot
dequeued-Fits e m same f =
    Quiet-Fits m.prot (dequeue e m).prot (record { state = refl; alive = refl; timers = same }) f

hurry-Fits : (s t : Prot) → Fits s → token_hurry_event s ≡ some t → Fits t
unfolding token_hurry_event
hurry-Fits s t f h = Quiet-Fits s t (prot_token_hurry-Quiet s t h) f

signal_subsystems-Quiet : (r : Reload) (s : Prot) → Quiet s (signal_subsystems r s)
unfolding signal_subsystems
signal_subsystems-Quiet r s = go (Conf.proc_by_id_in_conf r.conf r.my.id) refl
  where
    go :
        (o : Option (ℕ × Proc))
        → Conf.proc_by_id_in_conf r.conf r.my.id ≡ o
        → Quiet s (signal_subsystems r s)
    go none e = record { state = rw e; alive = rw e; timers = rw e }
    go (some p) e = record { state = rw e; alive = rw e; timers = rw e }

reloaded-Quiet :
    (r : Reload) (s : Prot)
    → let t = signal_subsystems r (record s { need_conf_reload = false }) in
      Quiet s (if r.need_memb_partition then partition_all t else t)
unfolding partition_all
reloaded-Quiet r s =
    let c = record s { need_conf_reload = false } in
    let q = signal_subsystems-Quiet r c in
    let p : Quiet s (signal_subsystems r c) = record {
      state = q.state;
      alive = q.alive;
      timers = q.timers;
    } in
    Quiet-if r.need_memb_partition s _ _
      (record { state = p.state; alive = p.alive; timers = p.timers }) p

op_alive : (st : State) (a : Bool) (x : Timers) → is_op st ≡ true → fits st a x ≡ true → a ≡ true
op_alive State.op a x e f = (&&-true a _ f).0
op_alive State.seg a x e f = cc
op_alive State.represented a x e f = cc
op_alive State.gather a x e f = cc
op_alive State.form a x e f = cc
op_alive State.evs a x e f = cc

-- In OP there is a token, whose loss may be queued.
reload-IsRound : (r : Reload) (s : Prot) → Fits s → IsRound s (initiate_conf_reload r s)
unfolding initiate_conf_reload
reload-IsRound r s f = elim (Bool-cases (is_op s.memb.state)) [
  | inr b ↦ rw b (record { alive = refl; state = inl refl; timers = inl refl })
  | inl b ↦
      let alive = op_alive s.memb.state s.memb.token_alive (timers_of s.out) b f.0 in
      let q = reloaded-Quiet r s in
      rw b (record {
        alive = q.alive;
        state = inl q.state;
        timers = inr (alive, ap (λ (x : Timers). record x { token_loss = true }) q.timers);
      })
]

initiate_conf_reload-Fits : (r : Reload) (s : Prot) → Fits s → Fits (initiate_conf_reload r s)
initiate_conf_reload-Fits r s f = IsRound-Fits s _ (reload-IsRound r s f) f

one_step-Fits : (m t : Machine) → Step m t → Fits m.prot → Fits t.prot
one_step-Fits m t (Step.message msg _ _ h) f = handle_message-Fits msg m t f h
one_step-Fits m t (Step.token now header_ok tot_len tok _ _ h) f =
    handle_token-Fits now header_ok tot_len tok m t f h
one_step-Fits m t (Step.timer now e _ _ p h) f =
    handle_timer-Fits now e m t f (fired-is_awaited e m.prot.memb.state m.prot f.0 p) h
one_step-Fits m t (Step.packet n p _ s h) f =
    IsRound-Fits m.prot s (handle_bcast-IsRound n p m.prot s h) f
one_step-Fits m t (Step.round size n tok body _ s h) f =
    IsRound-Fits m.prot s (handle_token-IsRound size n tok body m.prot s h) f
one_step-Fits m t (Step.lost _ _ h) f = token_loss-Fits m t f h
one_step-Fits m t (Step.client l _ s h) f = Quiet-Fits m.prot s (new_message-Quiet l m.prot s h) f
one_step-Fits m t (Step.reliable _ s h) f =
    Quiet-Fits m.prot s (deliver_all_reliable_event-Quiet m.prot s h) f
one_step-Fits m t (Step.agreed _ s h) f =
    Quiet-Fits m.prot s (deliver_agreed_event-Quiet m.prot s h) f
one_step-Fits m t (Step.hurry _ s p h) f =
    hurry-Fits (dequeue Event.token_hurry m).prot s (dequeued-Fits Event.token_hurry m refl f) h
one_step-Fits m t (Step.reload r _) f = initiate_conf_reload-Fits r m.prot f
one_step-Fits m t (Step.reload_event r _ p) f =
    initiate_conf_reload-Fits r (dequeue Event.initiate_conf_reload m).prot
      (dequeued-Fits Event.initiate_conf_reload m refl f)
one_step-Fits m t (Step.threshold n _ s h) f =
    Quiet-Fits m.prot s (set_delivery_threshold-Quiet n m.prot s h) f
one_step-Fits m t (Step.groups g d _) f = f
one_step-Fits m t (Step.windows w _) f = f

many_steps-Fits : (m t : Machine) → Run m t → Fits m.prot → Fits t.prot
many_steps-Fits m t Run.here f = f
many_steps-Fits m t (Run.next r s) f = one_step-Fits _ t s (many_steps-Fits m _ r f)

start-shift_to_seg :
    (m : Machine)
    → m.prot.out ≡ []
    → is_pending Event.shift_to_seg (start_alone (shift_to_op m)).prot.out ≡ false
unfolding shift_to_op start_alone
start-shift_to_seg m o = go m.prot.need_conf_reload refl
  where
    go :
        (b : Bool)
        → m.prot.need_conf_reload ≡ b
        → is_pending Event.shift_to_seg (start_alone (shift_to_op m)).prot.out ≡ false
    go true e = simp (e, o)
    go false e = simp (e, o)

memb_init-Fits : (m t : Machine) → m.prot.out ≡ [] → memb_init m ≡ some t → Fits t.prot
unfolding memb_init
memb_init-Fits m t o h =
    token_loss_from-Fits (start_alone (shift_to_op m)) t (start-shift_to_seg m o) h

-- A daemon starts with no timer queued. After `Memb_init` and any run of messages, tokens, packets, timers,
-- clients' messages, reloads of the configuration and changes of the delivery threshold, the timers that are queued and the token that the daemon has are those of its
-- state, and in each state but OP the timer that leads out of it is queued.
pub timers_fit : (m s t : Machine) → m.prot.out ≡ [] → memb_init m ≡ some s → Run s t → Fits t.prot
timers_fit m s t o h r = many_steps-Fits s t r (memb_init-Fits m s o h)
