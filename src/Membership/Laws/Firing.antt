-- ===== src/Membership/Laws/Firing.antt =====
-- What a daemon waits for, through the timers of daemon/membership.c that fire.
use java_spread_assignment.Base.{ℕ, ◌≡◌, refl, Bool, true, false, some, arith}
use java_spread_assignment.Memb.{State}
use java_spread_assignment.Prot.State.{Event, Prot}
use java_spread_assignment.Membership.State.{Machine, dequeue, is_pending}
use java_spread_assignment.Membership.Timers.{
  Timers, timers_of, leaves, FitsAs, Fits, Timer, event_of, handle_timer, is_awaited,
}
use java_spread_assignment.Membership.Laws.Fits.{
  fits_at, Fits-some, shift_to_seg-Fits, gather_or_represented-Fits,
}
use java_spread_assignment.Membership.Laws.Waiting.{
  token_loss_unqueued-Fits, lookup_new_members-Fits, scast_alive-Fits, send_join-Fits,
}
use java_spread_assignment.Membership.Laws.Forming.{form_or_fail-Fits}

-- A timer that is no longer queued is missed in no state.
dequeue-Fits :
    (st : State) (e : Timer) (m : Machine)
    → FitsAs st m.prot
    → FitsAs st (dequeue (event_of e) m).prot
dequeue-Fits State.op e m f = ground arith
dequeue-Fits State.seg e m f = ground arith
dequeue-Fits State.represented e m f = ground arith
dequeue-Fits State.gather e m f = ground arith
dequeue-Fits State.form e m f = ground arith
dequeue-Fits State.evs e m f = ground arith

-- A timer is queued only in the states that wait for it.
pub fired-is_awaited :
    (e : Timer) (st : State) (s : Prot)
    → FitsAs st s
    → is_pending (event_of e) s.out ≡ true
    → is_awaited e st s.memb.token_alive ≡ true
fired-is_awaited Timer.token_loss_event State.op s f p = refl
fired-is_awaited Timer.token_loss_event State.seg s f p = ground arith
fired-is_awaited Timer.token_loss_event State.represented s f p = ground arith
fired-is_awaited Timer.token_loss_event State.gather s f p = ground arith
fired-is_awaited Timer.token_loss_event State.form s f p = refl
fired-is_awaited Timer.token_loss_event State.evs s f p = refl
fired-is_awaited Timer.lookup_new_members_event State.op s f p = refl
fired-is_awaited Timer.lookup_new_members_event State.seg s f p = refl
fired-is_awaited Timer.lookup_new_members_event State.represented s f p = refl
fired-is_awaited Timer.lookup_new_members_event State.gather s f p = refl
fired-is_awaited Timer.lookup_new_members_event State.form s f p = refl
fired-is_awaited Timer.lookup_new_members_event State.evs s f p = refl
fired-is_awaited Timer.scast_alive_event State.op s f p = ground arith
fired-is_awaited Timer.scast_alive_event State.seg s f p = refl
fired-is_awaited Timer.scast_alive_event State.represented s f p = ground arith
fired-is_awaited Timer.scast_alive_event State.gather s f p = ground arith
fired-is_awaited Timer.scast_alive_event State.form s f p = ground arith
fired-is_awaited Timer.scast_alive_event State.evs s f p = ground arith
fired-is_awaited Timer.gather_or_represented_event State.op s f p = ground arith
fired-is_awaited Timer.gather_or_represented_event State.seg s f p = refl
fired-is_awaited Timer.gather_or_represented_event State.represented s f p = ground arith
fired-is_awaited Timer.gather_or_represented_event State.gather s f p = ground arith
fired-is_awaited Timer.gather_or_represented_event State.form s f p = ground arith
fired-is_awaited Timer.gather_or_represented_event State.evs s f p = ground arith
fired-is_awaited Timer.shift_to_seg_event State.op s f p = ground arith
fired-is_awaited Timer.shift_to_seg_event State.seg s f p = ground arith
fired-is_awaited Timer.shift_to_seg_event State.represented s f p = refl
fired-is_awaited Timer.shift_to_seg_event State.gather s f p = ground arith
fired-is_awaited Timer.shift_to_seg_event State.form s f p = ground arith
fired-is_awaited Timer.shift_to_seg_event State.evs s f p = ground arith
fired-is_awaited Timer.send_join_event State.op s f p = ground arith
fired-is_awaited Timer.send_join_event State.seg s f p = ground arith
fired-is_awaited Timer.send_join_event State.represented s f p = ground arith
fired-is_awaited Timer.send_join_event State.gather s f p = refl
fired-is_awaited Timer.send_join_event State.form s f p = ground arith
fired-is_awaited Timer.send_join_event State.evs s f p = ground arith
fired-is_awaited Timer.form_or_fail_event State.op s f p = ground arith
fired-is_awaited Timer.form_or_fail_event State.seg s f p = ground arith
fired-is_awaited Timer.form_or_fail_event State.represented s f p = ground arith
fired-is_awaited Timer.form_or_fail_event State.gather s f p = refl
fired-is_awaited Timer.form_or_fail_event State.form s f p = ground arith
fired-is_awaited Timer.form_or_fail_event State.evs s f p = ground arith

in_seg :
    (st : State) (alive : Bool)
    → is_awaited Timer.gather_or_represented_event st alive ≡ true
    → st ≡ State.seg
in_seg State.op alive h = cc
in_seg State.seg alive h = refl
in_seg State.represented alive h = cc
in_seg State.gather alive h = cc
in_seg State.form alive h = cc
in_seg State.evs alive h = cc

in_gather :
    (st : State) (alive : Bool)
    → is_awaited Timer.form_or_fail_event st alive ≡ true
    → st ≡ State.gather
in_gather State.op alive h = cc
in_gather State.seg alive h = cc
in_gather State.represented alive h = cc
in_gather State.gather alive h = refl
in_gather State.form alive h = cc
in_gather State.evs alive h = cc

in_represented :
    (st : State) (alive : Bool)
    → is_awaited Timer.shift_to_seg_event st alive ≡ true
    → st ≡ State.represented
in_represented State.op alive h = cc
in_represented State.seg alive h = cc
in_represented State.represented alive h = refl
in_represented State.gather alive h = cc
in_represented State.form alive h = cc
in_represented State.evs alive h = cc

represented_to_seg :
    (m : Machine)
    → FitsAs State.represented m.prot
    → is_pending Event.shift_to_seg m.prot.out ≡ false
    → FitsAs State.seg m.prot
represented_to_seg m f p = ground arith

leaves_alone :
    (st : State) (x : Timers)
    → leaves st x ≡ true
    → leaves st (record x { scast_alive = false }) ≡ true
leaves_alone State.op x f = f
leaves_alone State.seg x f = f
leaves_alone State.represented x f = f
leaves_alone State.gather x f = f
leaves_alone State.form x f = f
leaves_alone State.evs x f = f

leaves_unjoined :
    (st : State) (x : Timers)
    → leaves st x ≡ true
    → leaves st (record x { send_join = false }) ≡ true
leaves_unjoined State.op x f = f
leaves_unjoined State.seg x f = f
leaves_unjoined State.represented x f = f
leaves_unjoined State.gather x f = f
leaves_unjoined State.form x f = f
leaves_unjoined State.evs x f = f

pub handle_timer-Fits :
    (now : ℕ) (e : Timer) (m t : Machine)
    → Fits m.prot
    → is_awaited e m.prot.memb.state m.prot.memb.token_alive ≡ true
    → handle_timer now e (dequeue (event_of e) m) ≡ some t
    → Fits t.prot
unfolding handle_timer
handle_timer-Fits now Timer.token_loss_event m t f w h =
    token_loss_unqueued-Fits _ t (dequeue-Fits m.prot.memb.state Timer.token_loss_event m f.0) h
handle_timer-Fits now Timer.lookup_new_members_event m t f w h =
    let u = dequeue Event.lookup_new_members m in Fits-some _ t h (lookup_new_members-Fits u f)
handle_timer-Fits now Timer.scast_alive_event m t f w h =
    let u = dequeue Event.scast_alive m in
    Fits-some _ t h (
      scast_alive-Fits u (in_seg m.prot.memb.state m.prot.memb.token_alive w) (
        dequeue-Fits m.prot.memb.state Timer.scast_alive_event m f.0,
        leaves_alone m.prot.memb.state (timers_of m.prot.out) f.1,
      ))
handle_timer-Fits now Timer.gather_or_represented_event m t f w h =
    let u = dequeue Event.gather_or_represented m in
    let st = in_seg m.prot.memb.state m.prot.memb.token_alive w in
    gather_or_represented-Fits u t
      (fits_at State.seg u.prot st
        (dequeue-Fits m.prot.memb.state Timer.gather_or_represented_event m f.0))
      refl h
handle_timer-Fits now Timer.shift_to_seg_event m t f w h =
    let u = dequeue Event.shift_to_seg m in
    let st = in_represented m.prot.memb.state m.prot.memb.token_alive w in
    Fits-some _ t h (
      shift_to_seg-Fits u (
        represented_to_seg u
          (fits_at State.represented u.prot st
            (dequeue-Fits m.prot.memb.state Timer.shift_to_seg_event m f.0))
          refl))
handle_timer-Fits now Timer.send_join_event m t f w h =
    let u = dequeue Event.send_join m in
    Fits-some _ t h (
      send_join-Fits u (in_gather m.prot.memb.state m.prot.memb.token_alive w) (
        dequeue-Fits m.prot.memb.state Timer.send_join_event m f.0,
        leaves_unjoined m.prot.memb.state (timers_of m.prot.out) f.1,
      ))
handle_timer-Fits now Timer.form_or_fail_event m t f w h =
    let u = dequeue Event.form_or_fail m in
    let st = in_gather m.prot.memb.state m.prot.memb.token_alive w in
    form_or_fail-Fits now u t
      (fits_at State.gather u.prot st
        (dequeue-Fits m.prot.memb.state Timer.form_or_fail_event m f.0))
      refl h
