-- ===== src/Membership/Laws/Quiet.antt =====
-- The steps that leave the state, the token and the timers of the membership algorithm as they are.
use java_spread_assignment.Base.{
  ℕ, zero, suc, ◌-◌, ◌≡◌, refl, ◌∙◌, inl, inr, Bool, true, false, List, [], ◌∷◌, none, some, ◌==◌,
  ltb, leb, if◌then◌else◌, Bool-cases,
}
use java_spread_assignment.NetTypes.{fifo_type, reliable_type, agreed_type, safe_type}
use java_spread_assignment.Prot.State.{Effect, Event, Delay, Prot, emit, entry, set_exist}
use java_spread_assignment.Prot.Threshold.{set_delivery_threshold, lowered, raised, is_threshold}
use java_spread_assignment.Membership.State.{Machine, call}
use java_spread_assignment.Membership.Shift.{ucast_joins}
use java_spread_assignment.Membership.Loss.{clear_dummy, clear_dummies, backoff_membership}
use java_spread_assignment.Membership.Timers.{timers_of}

pub record Quiet (s t : Prot) : Type 0 where
  pub state : t.memb.state ≡ s.memb.state
  pub alive : t.memb.token_alive ≡ s.memb.token_alive
  pub timers : timers_of t.out ≡ timers_of s.out

pub Quiet-refl : (s : Prot) → Quiet s s
Quiet-refl s = record { state = refl; alive = refl; timers = refl }

pub Quiet-trans : (s t u : Prot) → Quiet s t → Quiet t u → Quiet s u
Quiet-trans s t u p q = record {
  state = q.state ∙ p.state;
  alive = q.alive ∙ p.alive;
  timers = q.timers ∙ p.timers;
}

pub Quiet-if : (b : Bool) (s t u : Prot) → Quiet s t → Quiet s u → Quiet s (if b then t else u)
Quiet-if true s t u p q = p
Quiet-if false s t u p q = q

pub Quiet-some : (s t u : Prot) → some t ≡ some u → Quiet s t → Quiet s u
Quiet-some s t u e p = let q : u ≡ t = cc in rw q p

pub Quiet-machine : (s : Prot) (m t : Machine) → some m ≡ some t → Quiet s m.prot → Quiet s t.prot
Quiet-machine s m t e q = let p : t ≡ m = cc in rw p q

pub Quiet-either :
    (b : Bool) (s : Prot) (m t : Machine)
    → Quiet s m.prot
    → Quiet s t.prot
    → Quiet s (if b then m else t).prot
Quiet-either true s m t p q = p
Quiet-either false s m t p q = q

lowered-Quiet : (n : ℕ) (s : Prot) → Quiet s (lowered n s)
unfolding lowered
lowered-Quiet n s =
    let u =
      if leb n reliable_type
      then emit (Effect.e_queue Event.deliver_all_reliable Delay.zero_timeout) s
      else s in
    let p : Quiet s u =
      Quiet-if (leb n reliable_type) s _ s (record { state = refl; alive = refl; timers = refl })
        (Quiet-refl s) in
    Quiet-if (leb n agreed_type) s _ u
      (Quiet-trans s u _ p (record { state = refl; alive = refl; timers = refl })) p

raised-Quiet : (n : ℕ) (s : Prot) → Quiet s (raised n s)
unfolding raised
raised-Quiet n s =
    let u = if leb safe_type n then emit (Effect.e_dequeue Event.deliver_agreed) s else s in
    let p : Quiet s u =
      Quiet-if (leb safe_type n) s _ s (record { state = refl; alive = refl; timers = refl })
        (Quiet-refl s) in
    Quiet-if (leb fifo_type n) s _ u
      (Quiet-trans s u _ p (record { state = refl; alive = refl; timers = refl })) p

pub set_delivery_threshold-Quiet :
    (n : ℕ) (s t : Prot) → set_delivery_threshold n s ≡ some t → Quiet s t
unfolding set_delivery_threshold
set_delivery_threshold-Quiet n s t h =
    let u = record s { delivery_threshold = n } in
    let p : Quiet s u = record { state = refl; alive = refl; timers = refl } in
    elim (Bool-cases (is_threshold n)) [
      | inl b ↦ Quiet-some s _ t (rw b at h) (
          Quiet-if (ltb n s.delivery_threshold) s (lowered n u) _
            (Quiet-trans s u _ p (lowered-Quiet n u))
            (Quiet-if (ltb s.delivery_threshold n) s (raised n u) u
              (Quiet-trans s u _ p (raised-Quiet n u)) p))
      | inr b ↦ let k : none ≡ some t = (rw b at h) in cc
    ]

clear_dummy-Quiet : (i : ℕ) (s : Prot) → Quiet s (clear_dummy i s)
unfolding clear_dummy
clear_dummy-Quiet i s =
    Quiet-if ((s.packets (entry i)).exist == 3) s (set_exist (entry i) 0 s) s
      (record { state = refl; alive = refl; timers = refl }) (Quiet-refl s)

clear_dummies-Quiet : (n i : ℕ) (s : Prot) → Quiet s (clear_dummies n i s)
unfolding clear_dummies
clear_dummies-Quiet zero i s = Quiet-refl s
clear_dummies-Quiet (suc n) i s =
    Quiet-trans s (clear_dummy i s) _ (clear_dummy-Quiet i s)
      (clear_dummies-Quiet n (suc i) (clear_dummy i s))

pub backoff_membership-Quiet : (s : Prot) → Quiet s (backoff_membership s)
unfolding backoff_membership
backoff_membership-Quiet s =
    let q = clear_dummies-Quiet (s.highest_seq - s.last_discarded) (suc s.last_discarded) s in
    record { state = q.state; alive = q.alive; timers = q.timers }

pub ucast_joins-Quiet : (ids : List ℕ) (m : Machine) → Quiet m.prot (ucast_joins ids m).prot
unfolding ucast_joins
ucast_joins-Quiet [] m = Quiet-refl m.prot
ucast_joins-Quiet (id ∷ ids) m =
    let u = call (Effect.net_ucast_join id m.f_members m.f_reps) m in
    Quiet-trans m.prot u.prot _ (record { state = refl; alive = refl; timers = refl })
      (ucast_joins-Quiet ids u)
