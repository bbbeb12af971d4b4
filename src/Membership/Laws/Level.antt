-- ===== src/Membership/Laws/Level.antt =====
-- The deliveries of daemon/protocol.c, outside a membership change, change neither the state, the token and
-- the timers, nor `Aru`, `My_aru` and the last token.
use java_spread_assignment.Base.{
  ℕ, zero, suc, ◌-◌, ◌≡◌, refl, ap, ◌∙◌, inl, inr, Bool, true, false, List, [], ◌∷◌, none, some,
  ◌==◌, leb, if◌then◌else◌, Bool-cases,
}
use java_spread_assignment.Base.Seqs.{>>=-eq-some}
use java_spread_assignment.Memb.{is_evs}
use java_spread_assignment.Prot.State.{PacketInfo, Effect, Scatter, Prot, emit, entry, set_exist}
use java_spread_assignment.Prot.Deliver
use java_spread_assignment.Prot.Deliver.{
  packet_messages, push_up, up_index, emit_all, deliver_packet,
}
use java_spread_assignment.Prot.Discard.{
  deliver_and_free, discard_one, discard_loop, discard_regular, discard_packets,
}
use java_spread_assignment.Prot.Laws.Slots.{if-eq-some}
use java_spread_assignment.Membership.Timers.{timers_of}
use java_spread_assignment.Membership.Laws.Quiet.{Quiet}

pub record Level (s t : Prot) : Type 0 where
  pub state : t.memb.state ≡ s.memb.state
  pub alive : t.memb.token_alive ≡ s.memb.token_alive
  pub timers : timers_of t.out ≡ timers_of s.out
  pub aru : t.aru ≡ s.aru
  pub my_aru : t.my_aru ≡ s.my_aru
  pub last_token : t.last_token ≡ s.last_token

pub Level-Quiet : (s t : Prot) → Level s t → Quiet s t
Level-Quiet s t l = record { state = l.state; alive = l.alive; timers = l.timers }

pub Level-refl : (s : Prot) → Level s s
Level-refl s = record {
  state = refl;
  alive = refl;
  timers = refl;
  aru = refl;
  my_aru = refl;
  last_token = refl;
}

pub Level-trans : (s t u : Prot) → Level s t → Level t u → Level s u
Level-trans s t u p q = record {
  state = q.state ∙ p.state;
  alive = q.alive ∙ p.alive;
  timers = q.timers ∙ p.timers;
  aru = q.aru ∙ p.aru;
  my_aru = q.my_aru ∙ p.my_aru;
  last_token = q.last_token ∙ p.last_token;
}

pub Level-if : (b : Bool) (s t u : Prot) → Level s t → Level s u → Level s (if b then t else u)
Level-if true s t u p q = p
Level-if false s t u p q = q

pub Level-some : (s t u : Prot) → some t ≡ some u → Level s t → Level s u
Level-some s t u e p = let q : u ≡ t = cc in rw q p

emit_all-Level : (ms : List Scatter) (s : Prot) → Level s (emit_all ms s)
emit_all-Level [] s = Level-refl s
emit_all-Level (m ∷ ms) s =
    let u = emit (Effect.sess_deliver_message m) s in
    Level-trans s u _
      (record {
        state = refl;
        alive = refl;
        timers = refl;
        aru = refl;
        my_aru = refl;
        last_token = refl;
      })
      (emit_all-Level ms u)

push_up-Level : (e : ℕ) (p : PacketInfo) (s : Prot) → Level s (push_up e p s)
unfolding push_up
push_up-Level e p s =
    Level-if (Deliver.is_negative p.head.frag_index) s _ _
      (record {
        state = refl;
        alive = refl;
        timers = refl;
        aru = refl;
        my_aru = refl;
        last_token = refl;
      })
      (record {
        state = refl;
        alive = refl;
        timers = refl;
        aru = refl;
        my_aru = refl;
        last_token = refl;
      })

pub deliver_packet-Level : (e : ℕ) (s t : Prot) → deliver_packet e s ≡ some t → Level s t
unfolding deliver_packet
deliver_packet-Level e s t h =
    let (later, _, kept) = >>=-eq-some (packet_messages (s.packets e)) _ h in
    let u = push_up e (s.packets e) s in
    let (_, same) = if-eq-some _ (emit_all later u) t kept in
    Level-some s (emit_all later u) t (ap some same)
      (Level-trans s u _ (push_up-Level e (s.packets e) s) (emit_all-Level later u))

deliver_and_free-Level : (i : ℕ) (s t : Prot) → deliver_and_free i s ≡ some t → Level s t
unfolding deliver_and_free
deliver_and_free-Level i s t h =
    let (u, up, e) =
      >>=-eq-some (if (s.packets (entry i)).exist == 1 then deliver_packet (entry i) s else some s)
        _ h in
    let q : Level s u = elim (Bool-cases ((s.packets (entry i)).exist == 1)) [
      | inl b ↦ deliver_packet-Level (entry i) s u (rw b at up)
      | inr b ↦ Level-some s s u (rw b at up) (Level-refl s)
    ] in
    Level-some s (set_exist (entry i) 0 u) t e (
      Level-trans s u _ q (record {
        state = refl;
        alive = refl;
        timers = refl;
        aru = refl;
        my_aru = refl;
        last_token = refl;
      }))

discard_one-Level : (i : ℕ) (s t : Prot) → discard_one i s ≡ some t → Level s t
unfolding discard_one
discard_one-Level i s t h = elim (Bool-cases ((s.packets (entry i)).exist == 0)) [
  | inl b ↦ let k : none ≡ some t = (rw b at h) in cc
  | inr b ↦ deliver_and_free-Level i s t (rw b at h)
]

discard_loop-Level : (n i : ℕ) (s t : Prot) → discard_loop n i s ≡ some t → Level s t
unfolding discard_loop
discard_loop-Level zero i s t h = Level-some s s t h (Level-refl s)
discard_loop-Level (suc n) i s t h =
    let (u, one, more) = >>=-eq-some (discard_one i s) _ h in
    Level-trans s u t (discard_one-Level i s u one) (discard_loop-Level n (suc i) u t more)

discard_regular-Level : (s t : Prot) → discard_regular s ≡ some t → Level s t
unfolding discard_regular
discard_regular-Level s t h =
    let (u, loop, e) =
      >>=-eq-some (discard_loop (s.aru - s.last_discarded) (suc s.last_discarded) s) _ h in
    let q = discard_loop-Level (s.aru - s.last_discarded) (suc s.last_discarded) s u loop in
    Level-some s _ t e (record {
      state = q.state;
      alive = q.alive;
      timers = q.timers;
      aru = q.aru;
      my_aru = q.my_aru;
      last_token = q.last_token;
    })

pub discard_packets-Level :
    (s t : Prot) → is_evs s.memb.state ≡ false → discard_packets s ≡ some t → Level s t
unfolding discard_packets
discard_packets-Level s t ne h = elim (Bool-cases (leb s.aru s.last_discarded)) [
  | inl b ↦ Level-some s s t (rw b at h) (Level-refl s)
  | inr b ↦ discard_regular-Level s t (rw (b, ne) at h)
]

pub deliver_and_free-Quiet : (i : ℕ) (s t : Prot) → deliver_and_free i s ≡ some t → Quiet s t
deliver_and_free-Quiet i s t h = Level-Quiet s t (deliver_and_free-Level i s t h)

pub discard_packets-Quiet :
    (s t : Prot) → is_evs s.memb.state ≡ false → discard_packets s ≡ some t → Quiet s t
discard_packets-Quiet s t ne h = Level-Quiet s t (discard_packets-Level s t ne h)
