-- ===== src/Membership/Laws/Sending.antt =====
-- What daemon/protocol.c sends, seen from the membership: it changes neither state nor timers.
use java_spread_assignment.Base.{
  ℕ, zero, suc, ◌≡◌, refl, ap, ◌∙◌, inl, inr, Bool, true, false, not, ◌&&◌, List, [], ◌∷◌, none,
  some, ◌==◌, ltb, Bool-cases, Option-cases, length, take, get_elem?,
}
use java_spread_assignment.Base.Int.{ℤ, pos_part}
use java_spread_assignment.Base.Seqs.{>>=-eq-some, some-eq, if_either}
use java_spread_assignment.Prot.State.{Packet, DownLink, Prot, entry}
use java_spread_assignment.Prot.Send.{
  water_mark, bcast, send_queued, num_pack_to_send, sends_at_once, queue_bcast, flush_bcast,
  Advanced, advance, take_advanced, new_header, insert_new, Filled, fill_links, fill, fits,
  compatible, send_one, send_from, send_loop, send_new_packets,
}
use java_spread_assignment.Membership.Laws.Level.{
  Level, Level-refl, Level-trans, Level-if, Level-some,
}
use java_spread_assignment.Membership.Laws.Delivery.{pair-Level}

bcast-Level : (p : Packet) (s : Prot) → Level s (bcast p s)
unfolding bcast
bcast-Level p s = record {
  state = refl;
  alive = refl;
  timers = refl;
  aru = refl;
  my_aru = refl;
  last_token = refl;
}

send_queued-Level : (n : ℕ) (ps : List Packet) (s : Prot) → Level s (send_queued n ps s)
unfolding send_queued
send_queued-Level zero ps s = record {
  state = refl;
  alive = refl;
  timers = refl;
  aru = refl;
  my_aru = refl;
  last_token = refl;
}
send_queued-Level (suc n) [] s = record {
  state = refl;
  alive = refl;
  timers = refl;
  aru = refl;
  my_aru = refl;
  last_token = refl;
}
send_queued-Level (suc n) (p ∷ ps) s =
    Level-trans s (bcast p s) _ (bcast-Level p s) (send_queued-Level n ps (bcast p s))

pub flush_bcast-Level : (s : Prot) → Level s (flush_bcast s)
unfolding flush_bcast
flush_bcast-Level s = send_queued-Level (length s.send_queue) s.send_queue s

queue_bcast-Level : (p : Packet) (s : Prot) → Level s (queue_bcast p s)
unfolding queue_bcast
queue_bcast-Level p s =
    let t = send_queued (num_pack_to_send s) s.send_queue s in
    let q = send_queued-Level (num_pack_to_send s) s.send_queue s in
    Level-if (sends_at_once s) s (bcast p t) _ (Level-trans s t _ q (bcast-Level p t)) (record {
      state = q.state;
      alive = q.alive;
      timers = q.timers;
      aru = q.aru;
      my_aru = q.my_aru;
      last_token = q.last_token;
    })

take_advanced-Level : (a : Advanced) (s : Prot) → Level s (take_advanced a s)
take_advanced-Level a s =
    Level-if (a.mess_done && ltb (length a.links) water_mark) s _ _
      (record {
        state = refl;
        alive = refl;
        timers = refl;
        aru = refl;
        my_aru = refl;
        last_token = refl;
      })
      (record {
        state = refl;
        alive = refl;
        timers = refl;
        aru = refl;
        my_aru = refl;
        last_token = refl;
      })

insert_new-Level : (p : Packet) (s t : Prot) → insert_new p s ≡ some t → Level s t
unfolding insert_new
insert_new-Level p s t h =
    if_either ((s.packets (entry p.head.seq)).exist == 0) _ none (some t)
      (λ x. Level-some s _ t x (record {
        state = refl;
        alive = refl;
        timers = refl;
        aru = refl;
        my_aru = refl;
        last_token = refl;
      }))
      (λ x. cc) h

module _ (body_size : ℕ) where
  fill_links-Level :
      (ls : List DownLink) (cur pack_type : ℕ) (f g : Filled) (s t : Prot)
      → fill_links body_size ls cur pack_type f s ≡ some (some (g, t))
      → Level s t
  unfolding fill_links
  fill_links-Level [] cur pack_type f g s t h = cc
  fill_links-Level (l ∷ ls) cur pack_type f g s t h =
      let (e, _, h1) = >>=-eq-some (get_elem? l.mess cur) _ h in
      if_either (not (fits body_size f.data_len e)) _ _ (some (some (g, t))) (λ x. cc)
        (λ y.
          if_either (not (compatible pack_type l.type)) _ _ (some (some (g, t))) (λ x. cc)
            (λ x.
              let (a, _, k) = >>=-eq-some (advance l ls cur) _ x in
              pair-Level s (take_advanced a s) t _ g (some-eq k) (take_advanced-Level a s))
            y)
        h1

  filled-Level :
      (fuel pack_type : ℕ) (f g : Filled) (s t : Prot)
      → fill body_size fuel pack_type f s ≡ some (g, t)
      → Level s t
  unfolding fill
  filled-Level zero pack_type f g s t h = cc
  filled-Level (suc fuel) pack_type f g s t h =
      let ls = s.down_queue.links in
      let (r, filled, k) =
        >>=-eq-some (fill_links body_size ls s.down_queue.cur_element pack_type f s) _ h in
      elim (Option-cases r) [
        | inl e ↦ pair-Level s s t f g (rw e at k) (Level-refl s)
        | inr (x, e) ↦
            Level-trans s x.1 t
              (fill_links-Level ls s.down_queue.cur_element pack_type f x.0 s x.1
                (filled ∙ ap some e))
              (filled-Level fuel pack_type x.0 g x.1 t (rw e at k))
      ]

  send_one-Level :
      (l : DownLink) (ls : List DownLink) (s t : Prot)
      → send_one body_size l ls s ≡ some t
      → Level s t
  unfolding send_one
  send_one-Level l ls s t h =
      let (e, _, h1) = >>=-eq-some (get_elem? l.mess s.down_queue.cur_element) _ h in
      let (a, _, h2) = >>=-eq-some (advance l ls s.down_queue.cur_element) _ h1 in
      let u = record s {
        highest_seq = suc s.highest_seq;
        highest_fifo_seq = suc s.highest_fifo_seq;
      } in
      let first : Filled = record { data_len = e.len; body = take e.len e.buf } in
      let (r, filled, h3) =
        >>=-eq-some (fill body_size (suc body_size) l.type first (take_advanced a u)) _ h2 in
      let head = record (new_header l e s) { frag_index = a.frag_index } in
      let p : Packet = record { head = record head { data_len = r.0.data_len }; body = r.0.body } in
      let taken =
        Level-trans s u (take_advanced a u)
          (record {
            state = refl;
            alive = refl;
            timers = refl;
            aru = refl;
            my_aru = refl;
            last_token = refl;
          })
          (take_advanced-Level a u) in
      let full =
        Level-trans s (take_advanced a u) r.1 taken
          (filled-Level (suc body_size) l.type first r.0 (take_advanced a u) r.1 filled) in
      Level-trans s (queue_bcast p r.1) t
        (Level-trans s r.1 (queue_bcast p r.1) full (queue_bcast-Level p r.1))
        (insert_new-Level p (queue_bcast p r.1) t h3)

  send_from-Level :
      (ls : List DownLink) (b : Bool) (s t : Prot)
      → send_from body_size ls s ≡ some (b, t)
      → Level s t
  unfolding send_from
  send_from-Level [] b s t h = pair-Level s s t false b h (Level-refl s)
  send_from-Level (l ∷ ls) b s t h =
      let (u, sent, e) = >>=-eq-some (send_one body_size l ls s) _ h in
      pair-Level s u t true b e (send_one-Level l ls s u sent)

  send_loop-Level :
      (n num_sent m : ℕ) (s t : Prot) → send_loop body_size n num_sent s ≡ some (m, t) → Level s t
  unfolding send_loop
  send_loop-Level zero num_sent m s t h = pair-Level s s t num_sent m h (Level-refl s)
  send_loop-Level (suc n) num_sent m s t h =
      let (r, sent, k) = >>=-eq-some (send_from body_size s.down_queue.links s) _ h in
      let q = send_from-Level s.down_queue.links r.0 s r.1 sent in
      elim (Bool-cases r.0) [
        | inl e ↦ Level-trans s r.1 t q (send_loop-Level n (suc num_sent) m r.1 t (rw e at k))
        | inr e ↦ pair-Level s r.1 t num_sent m (rw e at k) q
      ]

  pub send_new_packets-Level :
      (n : ℤ) (m : ℕ) (s t : Prot) → send_new_packets body_size n s ≡ some (m, t) → Level s t
  unfolding send_new_packets
  send_new_packets-Level n m s t h = send_loop-Level (pos_part n) 0 m s t h
