-- ===== src/Membership/Laws/Packets.antt =====
-- `Prot_handle_bcast` of daemon/protocol.c, seen from the membership.
use java_spread_assignment.Base.{
  ℕ, zero, suc, ◌≡◌, refl, inl, inr, not, ◌&&◌, [], ◌∷◌, some, ◌==◌, ltb, leb, if◌then◌else◌,
  Option-cases,
}
use java_spread_assignment.Base.Int.{ℤ, pos, negsuc}
use java_spread_assignment.Base.Seqs.{>>=-eq-some, if_either, if_cases}
use java_spread_assignment.NetTypes.{
  is_control, is_status, is_fc, is_conf_reload, is_membership, is_hurry, is_regular,
}
use java_spread_assignment.Conf
use java_spread_assignment.Conf.{Proc}
use java_spread_assignment.Memb
use java_spread_assignment.Memb.{is_evs, is_op}
use java_spread_assignment.Prot.State.{
  PacketHeader, Packet, Effect, Event, Delay, Prot, emit, entry, put, DownLink,
}
use java_spread_assignment.Prot.Hurry.{
  leader_id, prot_token_hurry, handle_hurry, is_token_hold, new_message,
}
use java_spread_assignment.Prot.Bcast.{
  raise_my_aru, handle_conf_reload, handle_control, restart_timers, prefer_token, insert_received,
  deliver_received, handle_regular, handle_bcast,
}
use java_spread_assignment.Membership.Laws.Quiet.{
  Quiet, Quiet-refl, Quiet-trans, Quiet-if, Quiet-some,
}
use java_spread_assignment.Membership.Laws.Delivery.{
  same-Quiet, deliver_agreed_packets-Quiet, deliver_reliable_packets-Quiet,
}
use java_spread_assignment.Membership.Laws.Rounds.{IsRound, Quiet-IsRound, IsRound-trans}
use java_spread_assignment.Prot.Threshold.{deliver_all_reliable_event, deliver_agreed_event}
use java_spread_assignment.Prot.Send.{water_mark}
use java_spread_assignment.Base.{◌++◌, length}
use java_spread_assignment.Membership.Laws.Daemon.{raise_my_aru-Quiet}
use java_spread_assignment.Membership.Laws.Admission.{prot_token_hurry-Quiet}

handle_control-Quiet : (p : Packet) (s : Prot) → Quiet s (handle_control p s)
unfolding handle_control handle_conf_reload
handle_control-Quiet p s =
    Quiet-if (is_status p.head.type) s _ _ (record { state = refl; alive = refl; timers = refl })
      (Quiet-if (is_fc p.head.type) s _ _ (record { state = refl; alive = refl; timers = refl })
        (Quiet-if (is_conf_reload p.head.type) s _ s
          (Quiet-if (is_op s.memb.state) s _ _
            (record { state = refl; alive = refl; timers = refl })
            (record { state = refl; alive = refl; timers = refl }))
          (Quiet-refl s)))

-- Traffic starts the timer of the token again only where there is a token.
restart_timers-IsRound : (s t : Prot) → restart_timers s ≡ some t → IsRound s t
unfolding restart_timers
restart_timers-IsRound s t h =
    if_cases s.memb.token_alive _ (some s) (some t)
      (λ a x.
        let (first, _, e) = >>=-eq-some (leader_id s) _ x in
        let u = emit (Effect.e_queue Event.token_loss Delay.token_timeout) s in
        let r : IsRound s u = record { alive = refl; state = inl refl; timers = inr (a, refl) } in
        let q = Quiet-some u _ t e (
          Quiet-if (first == s.my.id) u _ u (record { state = refl; alive = refl; timers = refl })
            (Quiet-refl u)) in
        IsRound-trans s u t r (Quiet-IsRound u t q))
      (λ _ x. Quiet-IsRound s t (same-Quiet s t x)) h

prefer_token-Quiet : (p : PacketHeader) (s : Prot) → Quiet s (prefer_token p s)
unfolding prefer_token
prefer_token-Quiet p s =
    Quiet-if
      (s.flow.accelerated_ring
        && (not s.token_has_priority
            && (ltb s.received_token_rounds p.token_round && (p.transmiter_id == s.prev_proc_id))))
      s _ s (record { state = refl; alive = refl; timers = refl }) (Quiet-refl s)

insert_received-Quiet : (p : Packet) (i : ℕ) (s : Prot) → Quiet s (insert_received p i s)
unfolding insert_received
insert_received-Quiet p i s =
    let t = record s {
      packets =
          put s.packets (entry p.head.seq)
            (record { head = p.head; body = p.body; exist = 1; proc_index = i });
    } in
    let q = prefer_token-Quiet p.head t in
    record { state = q.state; alive = q.alive; timers = q.timers }

deliver_received-Quiet : (seq : ℕ) (s t : Prot) → deliver_received seq s ≡ some t → Quiet s t
unfolding deliver_received
deliver_received-Quiet seq s t h =
    if_either (seq == suc s.my_aru) _ _ (some t)
      (λ x.
        Quiet-trans s (raise_my_aru s) t (raise_my_aru-Quiet s)
          (deliver_agreed_packets-Quiet (raise_my_aru s) t x))
      (λ x. deliver_reliable_packets-Quiet seq 1 s t x) h

handle_regular-IsRound : (p : Packet) (s t : Prot) → handle_regular p s ≡ some t → IsRound s t
unfolding handle_regular
handle_regular-IsRound p s t h =
    let (u, restarted, h1) = >>=-eq-some (restart_timers s) _ h in
    let q : Quiet u t =
      if_either (leb p.head.seq u.last_discarded) _ _ (some t) (λ x. same-Quiet u t x)
        (λ y.
          if_either (not ((u.packets (entry p.head.seq)).exist == 0)) _ _ (some t)
            (λ x. same-Quiet u t x)
            (λ x. elim (Option-cases (Conf.proc_by_id_in_conf u.conf p.head.proc_id)) [
              | inl e ↦ same-Quiet u t (rw e at x)
              | inr (found, e) ↦
                  Quiet-trans u (insert_received p found.0 u) t (insert_received-Quiet p found.0 u)
                    (deliver_received-Quiet p.head.seq (insert_received p found.0 u) t (rw e at x))
            ])
            y)
        h1 in
    IsRound-trans s u t (restart_timers-IsRound s u restarted) (Quiet-IsRound u t q)

handle_hurry-Quiet : (id : ℕ) (s t : Prot) → handle_hurry id s ≡ some t → Quiet s t
unfolding handle_hurry
handle_hurry-Quiet id s t h =
    let (first, _, h1) = >>=-eq-some (leader_id s) _ h in
    let u = record s { token_counter = 0 } in
    if_either ((first == s.my.id) && is_token_hold s) _ (some s) (some t)
      (λ y.
        if_either _ (prot_token_hurry u) (some s) (some t)
          (λ x.
            Quiet-trans s u t (record { state = refl; alive = refl; timers = refl })
              (prot_token_hurry-Quiet u t x))
          (λ x. same-Quiet s t x) y)
      (λ x. same-Quiet s t x) h1

pub handle_bcast-IsRound :
    (n : ℤ) (p : Packet) (s t : Prot) → handle_bcast n p s ≡ some t → IsRound s t
unfolding handle_bcast
handle_bcast-IsRound (negsuc n) p s t h = Quiet-IsRound s t (same-Quiet s t h)
handle_bcast-IsRound (pos zero) p s t h = Quiet-IsRound s t (same-Quiet s t h)
handle_bcast-IsRound (pos (suc n)) p s t h =
    let to_memb = λ (x : some (emit (Effect.memb_handle_message p) s) ≡ some t).
      Quiet-IsRound s t
        (Quiet-some s _ t x (record { state = refl; alive = refl; timers = refl })) in
    if_either (is_control p.head.type) _ _ (some t)
      (λ x. Quiet-IsRound s t (Quiet-some s _ t x (handle_control-Quiet p s)))
      (λ v.
        if_either (is_membership p.head.type) _ _ (some t) to_memb
          (λ w.
            if_either (is_hurry p.head.type) _ _ (some t)
              (λ x. Quiet-IsRound s t (handle_hurry-Quiet p.head.proc_id s t x))
              (λ z.
                if_either (not (is_regular p.head.type)) _ _ (some t)
                  (λ x. Quiet-IsRound s t (same-Quiet s t x))
                  (λ y.
                    if_either (not (Memb.is_equal s.memb.membership_id p.head.memb_id)) _ _ (some t)
                      to_memb (λ x. handle_regular-IsRound p s t x) y)
                  z)
              w)
          v)
      h

pub new_message-Quiet : (l : DownLink) (s t : Prot) → new_message l s ≡ some t → Quiet s t
unfolding new_message
new_message-Quiet l s t h =
    let links = s.down_queue.links ++ (l ∷ []) in
    let a = record s { down_queue = record s.down_queue { links = links } } in
    let u = if leb water_mark (length links) then emit Effect.sess_block_users_level a else a in
    let q : Quiet s u =
      Quiet-if (leb water_mark (length links)) s _ a
        (record { state = refl; alive = refl; timers = refl })
        (record { state = refl; alive = refl; timers = refl }) in
    if_either ((length links == 1) && is_token_hold u) _ (some u) (some t)
      (λ y.
        let (first, _, h1) = >>=-eq-some (leader_id u) _ y in
        if_either (first == u.my.id) (handle_hurry u.my.id u) _ (some t)
          (λ x. Quiet-trans s u t q (handle_hurry-Quiet u.my.id u t x))
          (λ x.
            Quiet-some s _ t x
              (Quiet-trans s u _ q (record { state = refl; alive = refl; timers = refl })))
          h1)
      (λ x. Quiet-some s u t x q) h

pub deliver_all_reliable_event-Quiet :
    (s t : Prot) → deliver_all_reliable_event s ≡ some t → Quiet s t
unfolding deliver_all_reliable_event
deliver_all_reliable_event-Quiet s t h = deliver_reliable_packets-Quiet 1 s.highest_seq s t h

pub deliver_agreed_event-Quiet : (s t : Prot) → deliver_agreed_event s ≡ some t → Quiet s t
unfolding deliver_agreed_event
deliver_agreed_event-Quiet s t h = deliver_agreed_packets-Quiet s t h
