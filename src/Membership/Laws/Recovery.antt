-- ===== src/Membership/Laws/Recovery.antt =====
-- The recovery of the old ring in `Read_form2` of daemon/membership.c leaves state, token and timers.
use java_spread_assignment.Base.{
  ℕ, zero, suc, ◌+◌, ◌-◌, ◌≡◌, refl, ap, ◌∙◌, inl, inr, false, List, [], ◌∷◌, none, some, ◌==◌, ltb,
  if◌then◌else◌, Bool-cases,
}
use java_spread_assignment.Base.Seqs.{>>=-eq-some}
use java_spread_assignment.Memb.{is_evs}
use java_spread_assignment.Memb.Reps.{RingInfo}
use java_spread_assignment.Prot.State.{Prot, entry, set_exist}
use java_spread_assignment.Prot.Discard.{discard_packets}
use java_spread_assignment.Prot.Laws.Slots.{if-eq-some}
use java_spread_assignment.Membership.Recover.{
  forget_late, may_forget, fill_holes, recompute_my_aru, recount, recover_ring,
}
use java_spread_assignment.Membership.Laws.Level.{discard_packets-Quiet}
use java_spread_assignment.Membership.Laws.Quiet.{Quiet, Quiet-refl, Quiet-trans, Quiet-some}

pub forget_late-Quiet : (n low : ℕ) (s t : Prot) → forget_late n low s ≡ some t → Quiet s t
unfolding forget_late
forget_late-Quiet zero low s t h = Quiet-some s s t h (Quiet-refl s)
forget_late-Quiet (suc n) low s t h =
    elim (Bool-cases ((s.packets (entry (low + suc n))).exist == 0)) [
      | inl b ↦ forget_late-Quiet n low s t (rw b at h)
      | inr b ↦ elim (Bool-cases (may_forget (low + suc n) s)) [
        | inl c ↦
            let u = set_exist (entry (low + suc n)) 0 s in
            Quiet-trans s u t (record { state = refl; alive = refl; timers = refl })
              (forget_late-Quiet n low u t (rw (b, c) at h))
        | inr c ↦ let k : none ≡ some t = (rw (b, c) at h) in cc
      ]
    ]

fill_holes-Quiet : (hs : List ℕ) (s t : Prot) → fill_holes hs s ≡ some t → Quiet s t
unfolding fill_holes
fill_holes-Quiet [] s t h = Quiet-some s s t h (Quiet-refl s)
fill_holes-Quiet (k ∷ ks) s t h =
    let u = set_exist (entry k) 3 s in
    let go : fill_holes ks u ≡ some t → Quiet s t = λ e.
      Quiet-trans s u t (record { state = refl; alive = refl; timers = refl })
        (fill_holes-Quiet ks u t e) in
    elim (Bool-cases ((s.packets (entry k)).exist == 0)) [
      | inl b ↦ go (rw b at h)
      | inr b ↦ elim (Bool-cases (may_forget k s)) [
        | inl c ↦ go (rw (b, c) at h)
        | inr c ↦ let z : none ≡ some t = (rw (b, c) at h) in cc
      ]
    ]

recompute_my_aru-Quiet : (s t : Prot) → recompute_my_aru s ≡ some t → Quiet s t
unfolding recompute_my_aru
recompute_my_aru-Quiet s t h =
    let (r, _, e) =
      >>=-eq-some
        (recount (s.highest_seq - s.last_discarded) s.last_discarded s.packets s.last_discarded
          s.my_aru)
        _ h in
    let (_, same) = if-eq-some (r.0 == r.1) (record s { my_aru = r.0 }) t e in
    Quiet-some s (record s { my_aru = r.0 }) t (ap some same)
      (record { state = refl; alive = refl; timers = refl })

pub recover_ring-Quiet :
    (r : RingInfo) (s t : Prot)
    → is_evs s.memb.state ≡ false
    → recover_ring r s ≡ some t
    → Quiet s t
unfolding recover_ring
recover_ring-Quiet r s t ne h =
    let (u, late, h1) =
      >>=-eq-some (forget_late (s.highest_seq - r.highest_seq) r.highest_seq s) _ h in
    let w = record u {
      my_aru = if ltb r.highest_seq u.my_aru then r.highest_seq else u.my_aru;
      highest_seq = r.highest_seq;
      aru = r.aru;
    } in
    let (v, gone, h2) = >>=-eq-some (discard_packets w) _ h1 in
    let (x, filled, h3) = >>=-eq-some (fill_holes r.holes v) _ h2 in
    let p = forget_late-Quiet (s.highest_seq - r.highest_seq) r.highest_seq s u late in
    let pw : Quiet s w = record { state = p.state; alive = p.alive; timers = p.timers } in
    let pv = Quiet-trans s w v pw (discard_packets-Quiet w v (ap is_evs p.state ∙ ne) gone) in
    let px = Quiet-trans s v x pv (fill_holes-Quiet r.holes v x filled) in
    Quiet-trans s x t px (recompute_my_aru-Quiet x t h3)
