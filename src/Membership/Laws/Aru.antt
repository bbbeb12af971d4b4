-- ===== src/Membership/Laws/Aru.antt =====
-- `Aru` over a round of daemon/protocol.c.
use java_spread_assignment.Base.{
  ℕ, ◌+◌, ◌-◌, ◌≤◌, ◌≡◌, ◌≢◌, ap, ◌∙◌, false, List, some, ◌==◌, arith,
}
use java_spread_assignment.Base.Seqs.{>>=-eq-some}
use java_spread_assignment.Memb.{State, Memb, is_evs}
use java_spread_assignment.Prot.State.{RingRtr, Token, Prot}
use java_spread_assignment.Prot.Retrans.{request_retrans, body_bytes}
use java_spread_assignment.Prot.Send.{flush_bcast}
use java_spread_assignment.Prot.Hurry.{leader_id}
use java_spread_assignment.Prot.Discard.{discard_packets}
use java_spread_assignment.Prot.Deliver.{deliver_agreed_packets, deliver_reliable_packets}
use java_spread_assignment.Prot.Bcast.{raise_my_aru}
use java_spread_assignment.Prot.Token.{
  use_token, commit_if_complete, stamp_token, next_arq, send_token, set_timers, update_aru,
  give_up_evs, deliver_round, process_token,
}
use java_spread_assignment.Prot.Laws.Slots.{is_evs-false}
use java_spread_assignment.Prot.Laws.Token.{advance_aru-Raised, update_aru-bounds}
use java_spread_assignment.Membership.Laws.Level.{
  Level, Level-trans, Level-some, discard_packets-Level,
}
use java_spread_assignment.Membership.Laws.Delivery.{
  deliver_agreed_packets-Level, deliver_reliable_packets-Level,
}
use java_spread_assignment.Membership.Laws.Daemon.{use_token-Level}

give_up_evs-same : (s : Prot) → is_evs s.memb.state ≡ false → give_up_evs s ≡ s
unfolding give_up_evs
give_up_evs-same s e = rw e

deliver_round-Level :
    (n : ℕ) (s t : Prot) → is_evs s.memb.state ≡ false → deliver_round n s ≡ some t → Level s t
unfolding deliver_round
deliver_round-Level n s t ne h =
    let (u, gone, h1) = >>=-eq-some (discard_packets s) _ h in
    let (v, agreed, h2) = >>=-eq-some (deliver_agreed_packets u) _ h1 in
    let first = v.highest_seq + 1 - n in
    let (w, reliable, e) = >>=-eq-some (deliver_reliable_packets first n v) _ h2 in
    let p = Level-trans s u w (discard_packets-Level s u ne gone) (
      Level-trans u v w (deliver_agreed_packets-Level u v agreed)
        (deliver_reliable_packets-Level first n v w reliable)) in
    let same = give_up_evs-same w (ap is_evs p.state ∙ ne) in Level-some s w t (rw same at e) p

commit_if_complete-same : (s : Prot) → is_evs s.memb.state ≡ false → commit_if_complete s ≡ s
unfolding commit_if_complete
commit_if_complete-same s e = rw e

-- `Aru`, the number up to which the daemon takes all daemons to have all packets: outside EVS, a token
-- that is processed without a fatal alarm, deliveries and all, never lowers it, and never raises it
-- over `My_aru`, what the daemon itself has, nor over the `aru` of the last token that it sent; nor
-- does it lower `My_aru`.
pub aru_is_safe :
    (size : ℕ) (tok : Token) (body : List RingRtr) (s t : Prot)
    → s.memb.state ≢ State.evs
    → process_token size tok body s ≡ some t
    → (s.aru ≤ t.aru) × (t.aru ≤ t.my_aru) × (t.aru ≤ s.last_token.aru) × (s.my_aru ≤ t.my_aru)
unfolding process_token raise_my_aru
aru_is_safe size tok body s t ne h =
    let evs : is_evs s.memb.state ≡ false = is_evs-false s.memb.state ne in
    let (used, using, h1) = >>=-eq-some (use_token size tok body s) _ h in
    let l = use_token-Level size tok body s used using in
    let a = used.3 in
    let r = raise_my_aru a in
    let u = commit_if_complete r in
    let requests = request_retrans used.1 r in
    let (first, _, h2) = >>=-eq-some (leader_id u) _ h1 in
    let b = first == u.my.id in
    let tok' : Token = record used.0 { rtr_len = body_bytes requests } in
    let stamped = next_arq b (stamp_token tok' u) in
    let v = flush_bcast (set_timers b (send_token b stamped requests u)) in
    let (w, updated, delivered) = >>=-eq-some (update_aru stamped v) _ h2 in
    let (up, own, kept, last, memb) = update_aru-bounds b tok' requests u w updated in
    let same = commit_if_complete-same r (ap is_evs l.state ∙ evs) in
    let (k, raised) = advance_aru-Raised (a.highest_seq - a.my_aru) a.packets a.my_aru in
    let state : is_evs w.memb.state ≡ false =
      ap (λ (x : Memb). is_evs x.state) memb
      ∙ ap (λ (x : Prot). is_evs x.memb.state) same
      ∙ ap is_evs l.state
      ∙ evs in
    let d = deliver_round-Level used.2 w t state delivered in
    let u_aru : u.aru ≡ a.aru = ap (λ (x : Prot). x.aru) same in
    let u_last : u.last_token.aru ≡ a.last_token.aru = ap (λ (x : Prot). x.last_token.aru) same in
    let u_my : u.my_aru ≡ a.my_aru + k = ap (λ (x : Prot). x.my_aru) same ∙ raised.by in
    let a_last : a.last_token.aru ≡ s.last_token.aru = ap (λ (x : Token). x.aru) l.last_token in
    let d_aru = d.aru in
    let d_my = d.my_aru in
    let l_aru = l.aru in let l_my = l.my_aru in (omega arith, omega arith, omega arith, omega arith)
