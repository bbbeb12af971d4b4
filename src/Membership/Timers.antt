-- ===== src/Membership/Timers.antt =====
-- The timers of the membership algorithm of daemon/membership.c, and a run of the daemon: messages,
-- tokens, timers that fire, and what daemon/protocol.c does between them. `now` is the time that the event system gives.
use java_spread_assignment.Base.{ℕ, ◌≡◌, Bool, true, false, not, List, Option, some, ◌&&◌, ◌||◌}
use java_spread_assignment.Base.Int.{ℤ}
use java_spread_assignment.Memb.{State}
use java_spread_assignment.Prot.State.{
  Effect, Event, Packet, Token, RingRtr, DownLink, DownQueue, FormToken, Prot,
}
use java_spread_assignment.Prot.Bcast.{handle_bcast}
use java_spread_assignment.Prot.Hurry.{new_message}
use java_spread_assignment.Prot.Token as Round
use java_spread_assignment.Prot.Threshold.{
  set_delivery_threshold, deliver_all_reliable_event, deliver_agreed_event,
}
use java_spread_assignment.Prot.Reload.{Reload, initiate_conf_reload, token_hurry_event}
use java_spread_assignment.Flow.{Flow}
use java_spread_assignment.Membership.State.{Machine, dequeue, is_pending}
use java_spread_assignment.Membership.Shift.{
  shift_to_seg, gather_or_represented, scast_alive, send_join, lookup_new_members,
}
use java_spread_assignment.Membership.Loss.{token_loss}
use java_spread_assignment.Membership.Form1.{form_or_fail}
use java_spread_assignment.Membership.Handlers.{MembMessage, handle_message, handle_token}

-- The timers that only this algorithm queues, and that of the token.
pub record Timers : Type 0 where
  pub token_loss : Bool
  pub scast_alive : Bool
  pub gather_or_represented : Bool
  pub shift_to_seg : Bool
  pub send_join : Bool
  pub form_or_fail : Bool

abbrev pub timers_of : List Effect → Timers
timers_of out = record {
  token_loss = is_pending Event.token_loss out;
  scast_alive = is_pending Event.scast_alive out;
  gather_or_represented = is_pending Event.gather_or_represented out;
  shift_to_seg = is_pending Event.shift_to_seg out;
  send_join = is_pending Event.send_join out;
  form_or_fail = is_pending Event.form_or_fail out;
}

-- What a daemon waits for in each state, by whether it has a token.
abbrev pub fits : State → Bool → Timers → Bool
fits State.op alive t =
    alive
    && (not t.scast_alive
        && (not t.gather_or_represented
            && (not t.shift_to_seg && (not t.send_join && not t.form_or_fail))))
fits State.seg alive t =
    not alive
    && (not t.token_loss && (not t.shift_to_seg && (not t.send_join && not t.form_or_fail)))
fits State.represented alive t =
    not alive
    && (not t.token_loss
        && (not t.scast_alive
            && (not t.gather_or_represented && (not t.send_join && not t.form_or_fail))))
fits State.gather alive t =
    (alive || not t.token_loss)
    && (not t.scast_alive && (not t.gather_or_represented && not t.shift_to_seg))
fits State.form alive t =
    not alive
    && (not t.scast_alive
        && (not t.gather_or_represented
            && (not t.shift_to_seg && (not t.send_join && not t.form_or_fail))))
fits State.evs alive t =
    alive
    && (not t.scast_alive
        && (not t.gather_or_represented
            && (not t.shift_to_seg && (not t.send_join && not t.form_or_fail))))

abbrev pub FitsAs : State → Prot → Type 0
FitsAs st s = fits st s.memb.token_alive (timers_of s.out) ≡ true

-- Whether a timer is queued that leads out of the state, unless the daemon is in OP.
abbrev pub leaves : State → Timers → Bool
leaves State.op t = true
leaves State.seg t = t.gather_or_represented
leaves State.represented t = t.shift_to_seg
leaves State.gather t = t.form_or_fail
leaves State.form t = t.token_loss
leaves State.evs t = t.token_loss

abbrev pub LeavesAs : State → Prot → Type 0
LeavesAs st s = leaves st (timers_of s.out) ≡ true

-- The timers that are queued are those of the state, with the one that leads out of it.
abbrev pub Fits : Prot → Type 0
Fits s = FitsAs s.memb.state s × LeavesAs s.memb.state s

-- The handlers of the timers.
pub data Timer : Type 0 where
  token_loss_event lookup_new_members_event scast_alive_event gather_or_represented_event : Timer
  shift_to_seg_event send_join_event form_or_fail_event : Timer

abbrev pub event_of : Timer → Event
event_of Timer.token_loss_event = Event.token_loss
event_of Timer.lookup_new_members_event = Event.lookup_new_members
event_of Timer.scast_alive_event = Event.scast_alive
event_of Timer.gather_or_represented_event = Event.gather_or_represented
event_of Timer.shift_to_seg_event = Event.shift_to_seg
event_of Timer.send_join_event = Event.send_join
event_of Timer.form_or_fail_event = Event.form_or_fail

unfoldable pub handle_timer : ℕ → Timer → Machine → Option Machine
handle_timer now Timer.token_loss_event m = token_loss m
handle_timer now Timer.lookup_new_members_event m = some (lookup_new_members m)
handle_timer now Timer.scast_alive_event m = some (scast_alive 0 m)
handle_timer now Timer.gather_or_represented_event m = gather_or_represented m
handle_timer now Timer.shift_to_seg_event m = some (shift_to_seg m)
handle_timer now Timer.send_join_event m = some (send_join m)
handle_timer now Timer.form_or_fail_event m = form_or_fail now m

-- Whether a daemon waits for a timer, by its state and whether it has a token.
abbrev pub is_awaited : Timer → State → Bool → Bool
is_awaited Timer.token_loss_event State.seg alive = false
is_awaited Timer.token_loss_event State.represented alive = false
is_awaited Timer.token_loss_event State.gather alive = alive
is_awaited Timer.token_loss_event _ alive = true
is_awaited Timer.lookup_new_members_event _ alive = true
is_awaited Timer.scast_alive_event State.seg alive = true
is_awaited Timer.scast_alive_event _ alive = false
is_awaited Timer.gather_or_represented_event State.seg alive = true
is_awaited Timer.gather_or_represented_event _ alive = false
is_awaited Timer.shift_to_seg_event State.represented alive = true
is_awaited Timer.shift_to_seg_event _ alive = false
is_awaited Timer.send_join_event State.gather alive = true
is_awaited Timer.send_join_event _ alive = false
is_awaited Timer.form_or_fail_event State.gather alive = true
is_awaited Timer.form_or_fail_event _ alive = false

-- What the daemon does between two returns to its event loop: a message or a token of the membership, a
-- timer, which is no longer queued when its handler runs, and what the protocol does with a packet, a
-- token, a message of a client or an event of its own; `lost` is the call of `Memb_token_loss` that ends
-- a round that lasts too long, `reload` that of `Prot_initiate_conf_reload` on a monitor's message. The
-- numbers are the time, the bytes received and the size of a body. daemon/groups.c sets the delivery
-- threshold, its own state and the queue that is sent from, and a monitor the windows of the flow
-- control: to any value, at any time.
pub data Step : Machine → Machine → Type 0 where
  message : (msg : MembMessage) (m t : Machine) → handle_message msg m ≡ some t → Step m t
  token :
      (now : ℕ) (header_ok : Bool) (tot_len : ℕ) (tok : FormToken) (m t : Machine)
      → handle_token now header_ok tot_len tok m ≡ some t
      → Step m t
  timer :
      (now : ℕ) (e : Timer) (m t : Machine)
      → is_pending (event_of e) m.prot.out ≡ true
      → handle_timer now e (dequeue (event_of e) m) ≡ some t
      → Step m t
  packet :
      (received : ℤ) (p : Packet) (m : Machine) (s : Prot)
      → handle_bcast received p m.prot ≡ some s
      → Step m (record m { prot = s })
  round :
      (body_size : ℕ) (received : ℤ) (tok : Token) (body : List RingRtr) (m : Machine) (s : Prot)
      → Round.handle_token body_size received tok body m.prot ≡ some s
      → Step m (record m { prot = s })
  lost : (m t : Machine) → token_loss m ≡ some t → Step m t
  client :
      (l : DownLink) (m : Machine) (s : Prot)
      → new_message l m.prot ≡ some s
      → Step m (record m { prot = s })
  reliable :
      (m : Machine) (s : Prot)
      → deliver_all_reliable_event m.prot ≡ some s
      → Step m (record m { prot = s })
  agreed :
      (m : Machine) (s : Prot)
      → deliver_agreed_event m.prot ≡ some s
      → Step m (record m { prot = s })
  hurry :
      (m : Machine) (s : Prot)
      → is_pending Event.token_hurry m.prot.out ≡ true
      → token_hurry_event (dequeue Event.token_hurry m).prot ≡ some s
      → Step m (record m { prot = s })
  reload : (r : Reload) (m : Machine) → Step m (record m { prot = initiate_conf_reload r m.prot })
  reload_event :
      (r : Reload) (m : Machine)
      → is_pending Event.initiate_conf_reload m.prot.out ≡ true
      → Step m
          (record m { prot = initiate_conf_reload r (dequeue Event.initiate_conf_reload m).prot })
  threshold :
      (n : ℕ) (m : Machine) (s : Prot)
      → set_delivery_threshold n m.prot ≡ some s
      → Step m (record m { prot = s })
  groups :
      (gstate : ℕ) (d : DownQueue) (m : Machine)
      → Step m (record m { prot = record m.prot { gstate = gstate; down_queue = d } })
  windows : (flow : Flow) (m : Machine) → Step m (record m { prot = record m.prot { flow = flow } })

pub data Run (m : Machine) : Machine → Type 0 where
  here : Run m m
  next : {t u : Machine} → Run m t → Step t u → Run m u
