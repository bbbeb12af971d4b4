-- ===== src/Membership/Laws/Delivery.antt =====
-- The deliveries of daemon/protocol.c, seen from the membership: only the end of a membership change
-- changes the state.
use java_spread_assignment.Base.{
  ℕ, zero, suc, ◌≡◌, refl, ap, Bool, true, false, ◌&&◌, Option, none, some, ◌==◌, ltb, leb,
}
use java_spread_assignment.Base.Seqs.{>>=-eq-some, some-eq, if_either}
use java_spread_assignment.NetTypes.{is_safe, reliable_type, agreed_type, regular_bits}
use java_spread_assignment.Memb.{is_evs}
use java_spread_assignment.Prot.State.{Prot, entry}
use java_spread_assignment.Prot.Deliver.{
  deliver_packet, is_single_reliable, deliver_reliable_one, deliver_reliable_loop,
  deliver_reliable_packets, deliver_agreed_one, go_on, deliver_agreed_loop, deliver_agreed_packets,
}
use java_spread_assignment.Membership.Laws.Quiet.{Quiet, Quiet-refl, Quiet-some}
use java_spread_assignment.Membership.Laws.Level.{
  Level, Level-Quiet, Level-refl, Level-trans, Level-some, deliver_packet-Level,
}

pub none-Quiet : (s t : Prot) → none ≡ some t → Quiet s t
none-Quiet s t h = cc

pub same-Quiet : (s t : Prot) → some s ≡ some t → Quiet s t
same-Quiet s t h = Quiet-some s s t h (Quiet-refl s)

pub pair-Quiet {ℓ} :
    {A : Type ℓ} (s u t : Prot) (a b : A)
    → ◌≡◌ {A = Option (A × Prot)} (some (a, u)) (some (b, t))
    → Quiet s u
    → Quiet s t
pair-Quiet {A = A} s u t a b h q =
    Quiet-some s u t (ap some (ap (λ (r : A × Prot). r.1) (some-eq h))) q

same-Level : (s t : Prot) → some s ≡ some t → Level s t
same-Level s t h = Level-some s s t h (Level-refl s)

deliver_reliable_loop-Level :
    (n i : ℕ) (s t : Prot) → deliver_reliable_loop n i s ≡ some t → Level s t
unfolding deliver_reliable_loop deliver_reliable_one
deliver_reliable_loop-Level zero i s t h = same-Level s t h
deliver_reliable_loop-Level (suc n) i s t h =
    let (u, one, more) = >>=-eq-some (deliver_reliable_one i s) _ h in
    let p = s.packets (entry i) in
    let q =
      if_either ((p.exist == 1) && is_single_reliable p.head) _ (some s) (some u)
        (λ x. deliver_packet-Level (entry i) s u x) (λ x. same-Level s u x) one in
    Level-trans s u t q (deliver_reliable_loop-Level n (suc i) u t more)

pub deliver_reliable_packets-Level :
    (first n : ℕ) (s t : Prot) → deliver_reliable_packets first n s ≡ some t → Level s t
unfolding deliver_reliable_packets
deliver_reliable_packets-Level first n s t h =
    if_either (is_evs s.memb.state) (some s) _ (some t) (λ x. same-Level s t x)
      (λ y.
        if_either (ltb reliable_type s.delivery_threshold) (some s) _ (some t)
          (λ x. same-Level s t x) (λ x. deliver_reliable_loop-Level _ _ s t x) y)
      h

pub pair-Level {ℓ} :
    {A : Type ℓ} (s u t : Prot) (a b : A)
    → ◌≡◌ {A = Option (A × Prot)} (some (a, u)) (some (b, t))
    → Level s u
    → Level s t
pair-Level {A = A} s u t a b h q =
    Level-some s u t (ap some (ap (λ (r : A × Prot). r.1) (some-eq h))) q

deliver_agreed_one-Level :
    (i : ℕ) (s t : Prot) (b : Bool) → deliver_agreed_one i s ≡ some (b, t) → Level s t
unfolding deliver_agreed_one
deliver_agreed_one-Level i s t b h =
    let p = s.packets (entry i) in
    let next = record s { last_delivered = suc s.last_delivered } in
    let n : Level s next = record {
      state = refl;
      alive = refl;
      timers = refl;
      aru = refl;
      my_aru = refl;
      last_token = refl;
    } in
    if_either (p.exist == 1) _ _ (some (b, t))
      (λ y.
        if_either (is_safe p.head.type) (some (false, s)) _ (some (b, t))
          (λ x. pair-Level s s t false b x (Level-refl s))
          (λ x.
            let (u, up, e) = >>=-eq-some (deliver_packet (entry i) s) _ x in
            let q = deliver_packet-Level (entry i) s u up in
            pair-Level s (record u { last_delivered = suc u.last_delivered }) t true b e
              (record {
                state = q.state;
                alive = q.alive;
                timers = q.timers;
                aru = q.aru;
                my_aru = q.my_aru;
                last_token = q.last_token;
              }))
          y)
      (λ y.
        if_either (p.exist == 2) _ none (some (b, t))
          (λ z.
            if_either (leb agreed_type (regular_bits p.head.type)) none (some (true, next))
              (some (b, t)) (λ x. cc) (λ x. pair-Level s next t true b x n) z)
          (λ x. cc) y)
      h

go_on-Level :
    (b : Bool) (u t : Prot) (next : Prot → Option Prot)
    → (next u ≡ some t → Level u t)
    → go_on (b, u) next ≡ some t
    → Level u t
go_on-Level true u t next q h = q h
go_on-Level false u t next q h = same-Level u t h

deliver_agreed_loop-Level : (n i : ℕ) (s t : Prot) → deliver_agreed_loop n i s ≡ some t → Level s t
unfolding deliver_agreed_loop
deliver_agreed_loop-Level zero i s t h = same-Level s t h
deliver_agreed_loop-Level (suc n) i s t h =
    let (r, one, more) = >>=-eq-some (deliver_agreed_one i s) _ h in
    Level-trans s r.1 t (deliver_agreed_one-Level i s r.1 r.0 one) (
      go_on-Level r.0 r.1 t (λ v. deliver_agreed_loop n (suc i) v)
        (λ x. deliver_agreed_loop-Level n (suc i) r.1 t x) more)

pub deliver_agreed_packets-Level : (s t : Prot) → deliver_agreed_packets s ≡ some t → Level s t
unfolding deliver_agreed_packets
deliver_agreed_packets-Level s t h =
    if_either (leb s.my_aru s.last_delivered) (some s) _ (some t) (λ x. same-Level s t x)
      (λ z.
        if_either (is_evs s.memb.state) (some s) _ (some t) (λ x. same-Level s t x)
          (λ y.
            if_either (ltb agreed_type s.delivery_threshold) (some s) _ (some t)
              (λ x. same-Level s t x) (λ x. deliver_agreed_loop-Level _ _ s t x) y)
          z)
      h

pub deliver_reliable_packets-Quiet :
    (first n : ℕ) (s t : Prot) → deliver_reliable_packets first n s ≡ some t → Quiet s t
deliver_reliable_packets-Quiet first n s t h =
    Level-Quiet s t (deliver_reliable_packets-Level first n s t h)

pub deliver_agreed_packets-Quiet : (s t : Prot) → deliver_agreed_packets s ≡ some t → Quiet s t
deliver_agreed_packets-Quiet s t h = Level-Quiet s t (deliver_agreed_packets-Level s t h)
