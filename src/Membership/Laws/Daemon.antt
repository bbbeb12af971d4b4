-- ===== src/Membership/Laws/Daemon.antt =====
-- `Prot_handle_token` of daemon/protocol.c is a round, as the membership sees it.
use java_spread_assignment.Base.{
  ℕ, zero, suc, ◌+◌, ◌-◌, ◌≡◌, refl, ap, ◌∙◌, ◌⊎◌, inl, inr, Bool, true, false, ◌&&◌, List, none,
  some, ◌==◌, ltb, if◌then◌else◌,
}
use java_spread_assignment.Base.Int.{ℤ, pos, negsuc}
use java_spread_assignment.Base.Seqs.{>>=-eq-some, some-eq, if_either}
use java_spread_assignment.NetTypes.{is_form, get_retrans}
use java_spread_assignment.Memb
use java_spread_assignment.Memb.{is_evs, is_op}
use java_spread_assignment.Flow
use java_spread_assignment.Prot.State.{RingRtr, Token, Prot}
use java_spread_assignment.Prot.Send.{send_new_packets, flush_bcast}
use java_spread_assignment.Prot.Hurry.{leader_id, to_hold_token}
use java_spread_assignment.Prot.Bcast.{raise_my_aru}
use java_spread_assignment.Prot.Retrans.{Answers, answer_retrans, request_retrans, body_bytes}
use java_spread_assignment.Prot.Discard.{discard_packets}
use java_spread_assignment.Prot.Deliver.{deliver_agreed_packets, deliver_reliable_packets}
use java_spread_assignment.Prot.Token.{
  max_evs_rounds, admit, note_round, count_load, commit_if_complete, stamp_token, next_arq,
  send_token, set_timers, update_aru, give_up_evs, deliver_round, use_token, process_token,
  take_token, handle_token,
}
use java_spread_assignment.Membership.Laws.Quiet.{
  Quiet, Quiet-refl, Quiet-trans, Quiet-if, Quiet-some,
}
use java_spread_assignment.Membership.Laws.Level.{
  Level, Level-Quiet, Level-trans, Level-if, Level-some,
}
use java_spread_assignment.Membership.Laws.Delivery.{
  same-Quiet, deliver_agreed_packets-Quiet, deliver_reliable_packets-Quiet,
}
use java_spread_assignment.Membership.Laws.Answers.{answer_retrans-Level}
use java_spread_assignment.Membership.Laws.Sending.{flush_bcast-Level, send_new_packets-Level}
use java_spread_assignment.Membership.Laws.Rounds.{
  IsRound, Quiet-IsRound, IsRound-trans, discard_packets-IsRound,
}
use java_spread_assignment.Membership.Laws.Admission.{admit-Quiet}

note_round-Level : (tok : Token) (s : Prot) → Level s (note_round tok s)
unfolding note_round
note_round-Level tok s =
    Level-if s.token_has_priority s _ _
      (record {
        state = refl;
        alive = refl;
        timers = refl;
        aru = refl;
        my_aru = refl;
        last_token = refl;
      })
      (record {
        state = refl;
        alive = refl;
        timers = refl;
        aru = refl;
        my_aru = refl;
        last_token = refl;
      })

pub use_token-Level :
    (size : ℕ) (tok : Token) (body : List RingRtr) (s : Prot) (r : Token × Answers × ℕ × Prot)
    → use_token size tok body s ≡ some r
    → Level s r.3
unfolding use_token count_load
use_token-Level size tok body s r h =
    let n = note_round tok s in
    let (a, answered, h1) = >>=-eq-some (answer_retrans body n) _ h in
    let u = a.1 in
    let (sent, new, e) =
      >>=-eq-some
        (send_new_packets size
          (Flow.allowed u.flow u.memb.state u.highest_seq u.aru tok.flow_control) u)
        _ h1 in
    let q =
      Level-trans s n u (note_round-Level tok s) (answer_retrans-Level body a.0 n u answered) in
    let p = Level-trans s u sent.1 q (send_new_packets-Level size _ sent.0 u sent.1 new) in
    let last = ap (λ (x : Token × Answers × ℕ × Prot). x.3) (some-eq e) in
    Level-some s _ r.3 (ap some last) (record {
      state = p.state;
      alive = p.alive;
      timers = p.timers;
      aru = p.aru;
      my_aru = p.my_aru;
      last_token = p.last_token;
    })

pub raise_my_aru-Quiet : (s : Prot) → Quiet s (raise_my_aru s)
unfolding raise_my_aru
raise_my_aru-Quiet s = record { state = refl; alive = refl; timers = refl }

commit_if_complete-Quiet : (s : Prot) → Quiet s (commit_if_complete s)
unfolding commit_if_complete Memb.commit
commit_if_complete-Quiet s =
    Quiet-if (is_evs s.memb.state && (s.my_aru == s.highest_seq)) s _ s
      (record { state = refl; alive = refl; timers = refl }) (Quiet-refl s)

send_token-Quiet :
    (b : Bool) (tok : Token) (body : List RingRtr) (s : Prot) → Quiet s (send_token b tok body s)
unfolding send_token
send_token-Quiet b tok body s = Quiet-if (b && to_hold_token s) s s _ (Quiet-refl s) (
    Quiet-if (ltb 1 (get_retrans tok.type)) s _ _
      (record { state = refl; alive = refl; timers = refl })
      (record { state = refl; alive = refl; timers = refl }))

set_timers-IsRound : (b : Bool) (s : Prot) → s.memb.token_alive ≡ true → IsRound s (set_timers b s)
unfolding set_timers
set_timers-IsRound true s a = record { alive = refl; state = inl refl; timers = inr (a, refl) }
set_timers-IsRound false s a = record { alive = refl; state = inl refl; timers = inr (a, refl) }

update_aru-Quiet : (tok : Token) (s t : Prot) → update_aru tok s ≡ some t → Quiet s t
unfolding update_aru
update_aru-Quiet tok s t h =
    if_either (ltb (if ltb s.last_token.aru tok.aru then s.last_token.aru else tok.aru) s.aru) none
      _ (some t) (λ x. cc)
      (λ x. Quiet-some s _ t x (record { state = refl; alive = refl; timers = refl })) h

deliver_round-IsRound : (n : ℕ) (s t : Prot) → deliver_round n s ≡ some t → IsRound s t
unfolding deliver_round give_up_evs
deliver_round-IsRound n s t h =
    let (u, gone, h1) = >>=-eq-some (discard_packets s) _ h in
    let (v, agreed, h2) = >>=-eq-some (deliver_agreed_packets u) _ h1 in
    let (w, reliable, e) =
      >>=-eq-some (deliver_reliable_packets (v.highest_seq + 1 - n) n v) _ h2 in
    let q =
      Quiet-trans u v w (deliver_agreed_packets-Quiet u v agreed)
        (deliver_reliable_packets-Quiet (v.highest_seq + 1 - n) n v w reliable) in
    let p = Quiet-some u _ t e (
      Quiet-if (is_evs w.memb.state && ltb max_evs_rounds w.token_rounds) u _ w
        (record { state = q.state; alive = q.alive; timers = q.timers }) q) in
    IsRound-trans s u t (discard_packets-IsRound s u gone) (Quiet-IsRound u t p)

process_token-IsRound :
    (size : ℕ) (tok : Token) (body : List RingRtr) (s t : Prot)
    → s.memb.token_alive ≡ true
    → process_token size tok body s ≡ some t
    → IsRound s t
unfolding process_token
process_token-IsRound size tok body s t al h =
    let (used, using, h1) = >>=-eq-some (use_token size tok body s) _ h in
    let r = raise_my_aru used.3 in
    let u = commit_if_complete r in
    let requests = request_retrans used.1 r in
    let (first, _, h2) = >>=-eq-some (leader_id u) _ h1 in
    let b = first == u.my.id in
    let stamped = next_arq b (stamp_token (record used.0 { rtr_len = body_bytes requests }) u) in
    let sent = send_token b stamped requests u in
    let v = flush_bcast (set_timers b sent) in
    let (w, updated, delivered) = >>=-eq-some (update_aru stamped v) _ h2 in
    let q1 =
      Quiet-trans s used.3 r (Level-Quiet s used.3 (use_token-Level size tok body s used using))
        (raise_my_aru-Quiet used.3) in
    let q2 = Quiet-trans s r u q1 (commit_if_complete-Quiet r) in
    let q3 = Quiet-trans s u sent q2 (send_token-Quiet b stamped requests u) in
    let r1 =
      IsRound-trans s sent (set_timers b sent) (Quiet-IsRound s sent q3)
        (set_timers-IsRound b sent (q3.alive ∙ al)) in
    let q4 =
      Quiet-trans (set_timers b sent) v w
        (Level-Quiet (set_timers b sent) v (flush_bcast-Level (set_timers b sent)))
        (update_aru-Quiet stamped v w updated) in
    IsRound-trans s w t
      (IsRound-trans s (set_timers b sent) w r1 (Quiet-IsRound (set_timers b sent) w q4))
      (deliver_round-IsRound used.2 w t delivered)

take_token-IsRound :
    (size : ℕ) (r : Bool × Prot) (tok : Token) (body : List RingRtr) (t : Prot)
    → (r.0 ≡ false) ⊎ (r.1.memb.token_alive ≡ true)
    → take_token size r tok body ≡ some t
    → IsRound r.1 t
unfolding take_token
take_token-IsRound size (true, s) tok body t (inl e) h = cc
take_token-IsRound size (true, s) tok body t (inr a) h = process_token-IsRound size tok body s t a h
take_token-IsRound size (false, s) tok body t a h = Quiet-IsRound s t (same-Quiet s t h)

pub handle_token-IsRound :
    (size : ℕ) (n : ℤ) (tok : Token) (body : List RingRtr) (s t : Prot)
    → handle_token size n tok body s ≡ some t
    → IsRound s t
unfolding handle_token
handle_token-IsRound size (negsuc n) tok body s t h = Quiet-IsRound s t (same-Quiet s t h)
handle_token-IsRound size (pos zero) tok body s t h = Quiet-IsRound s t (same-Quiet s t h)
handle_token-IsRound size (pos (suc n)) tok body s t h =
    if_either (is_form tok.type) _ _ (some t)
      (λ x.
        Quiet-IsRound s t
          (Quiet-some s _ t x (record { state = refl; alive = refl; timers = refl })))
      (λ x.
        let (r, admitted, e) = >>=-eq-some (admit (suc n) tok s) _ x in
        let (q, a) = admit-Quiet (suc n) tok r.0 s r.1 admitted in
        let b : (r.0 ≡ false) ⊎ (r.1.memb.token_alive ≡ true) = elim a [
          | inl f ↦ inl f
          | inr k ↦ inr (q.alive ∙ k)
        ] in
        IsRound-trans s r.1 t (Quiet-IsRound s r.1 q) (take_token-IsRound size r tok body t b e))
      h
