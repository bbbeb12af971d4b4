-- ===== src/Membership/Laws/Rounds.antt =====
-- A round of daemon/protocol.c, seen from the membership: it may restart the timer of a token that the
-- daemon has, and it may end a membership change.
use java_spread_assignment.Base.{
  ℕ, zero, suc, ◌-◌, ◌≡◌, refl, sym, ap, ◌∙◌, ◌⊎◌, inl, inr, Bool, true, false, not, ◌||◌, none,
  some, ◌==◌, leb, if◌then◌else◌, Bool-cases, take,
}
use java_spread_assignment.Base.Seqs.{>>=-eq-some, some-eq, if_either}
use java_spread_assignment.NetTypes.{is_safe}
use java_spread_assignment.Conf
use java_spread_assignment.Conf.{Configuration}
use java_spread_assignment.Memb.{State, Memb, is_evs, keep_segments, transitional, install}
use java_spread_assignment.Prot.State.{Effect, Event, Delay, Prot, emit, entry, set_exist}
use java_spread_assignment.Prot.Discard.{
  deliver_and_free, before_transitional, is_known, after_transitional, all_free, clear_queues,
  regular, leave_reload, reset_sequence, deliver_transitional, deliver_regular, discard_evs,
  discard_packets,
}
use java_spread_assignment.Membership.Timers.{Timers, timers_of}
use java_spread_assignment.Membership.Laws.Quiet.{
  Quiet, Quiet-refl, Quiet-trans, Quiet-if, Quiet-some,
}
use java_spread_assignment.Membership.Laws.Level.{deliver_and_free-Quiet, discard_packets-Quiet}
use java_spread_assignment.Membership.Laws.Delivery.{same-Quiet}

pub record IsRound (s t : Prot) : Type 0 where
  pub alive : t.memb.token_alive ≡ s.memb.token_alive
  pub state :
      (t.memb.state ≡ s.memb.state) ⊎ ((s.memb.state ≡ State.evs) × (t.memb.state ≡ State.op))
  pub timers :
      (timers_of t.out ≡ timers_of s.out)
      ⊎ ((s.memb.token_alive ≡ true)
          × (timers_of t.out ≡ record (timers_of s.out) { token_loss = true }))

pub Quiet-IsRound : (s t : Prot) → Quiet s t → IsRound s t
Quiet-IsRound s t q = record { alive = q.alive; state = inl q.state; timers = inl q.timers }

not_op_evs : {P : Type 0} → State.op ≡ State.evs → P
not_op_evs h = cc

pub IsRound-trans : (s t u : Prot) → IsRound s t → IsRound t u → IsRound s u
IsRound-trans s t u p q = record {
  alive = q.alive ∙ p.alive;
  state = elim p.state [
    | inl e ↦ elim q.state [ inl f ↦ inl (f ∙ e) | inr (a, b) ↦ inr (sym e ∙ a, b) ]
    | inr (a, b) ↦ elim q.state [ inl f ↦ inr (a, f ∙ b) | inr (c, d) ↦ not_op_evs (sym b ∙ c) ]
  ];
  timers = elim p.timers [
    | inl e ↦ elim q.timers [
      | inl f ↦ inl (f ∙ e)
      | inr (a, f) ↦
          inr (sym p.alive ∙ a, f ∙ ap (λ (x : Timers). record x { token_loss = true }) e)
    ]
    | inr (a, e) ↦ elim q.timers [
      | inl f ↦ inr (a, f ∙ e)
      | inr (b, f) ↦ inr (a, f ∙ ap (λ (x : Timers). record x { token_loss = true }) e)
    ]
  ];
}

before_transitional-Quiet : (n i : ℕ) (s t : Prot) → before_transitional n i s ≡ some t → Quiet s t
unfolding before_transitional
before_transitional-Quiet zero i s t h = same-Quiet s t h
before_transitional-Quiet (suc n) i s t h =
    let p = s.packets (entry i) in
    if_either (p.exist == 0) none _ (some t) (λ x. cc)
      (λ z.
        if_either (p.exist == 3) (some s) _ (some t) (λ x. same-Quiet s t x)
          (λ y.
            if_either (is_safe p.head.type) (some s) _ (some t) (λ x. same-Quiet s t x)
              (λ x.
                let (u, freed, e) = >>=-eq-some (deliver_and_free i s) _ x in
                let q = deliver_and_free-Quiet i s u freed in
                let v = record u { last_discarded = i } in
                Quiet-trans s v t (record { state = q.state; alive = q.alive; timers = q.timers })
                  (before_transitional-Quiet n (suc i) v t e))
              y)
          z)
      h

after_transitional-Quiet :
    (n i : ℕ) (b : Bool) (s t : Prot) → after_transitional n i b s ≡ some t → Quiet s t
unfolding after_transitional
after_transitional-Quiet zero i b s t h = same-Quiet s t h
after_transitional-Quiet (suc n) i b s t h =
    let p = s.packets (entry i) in
    let free = set_exist (entry i) 0 s in
    let dropped = λ (c : Bool) (x : after_transitional n (suc i) c free ≡ some t).
      Quiet-trans s free t (record { state = refl; alive = refl; timers = refl })
        (after_transitional-Quiet n (suc i) c free t x) in
    if_either (p.exist == 0) none _ (some t) (λ x. cc)
      (λ z.
        if_either (p.exist == 3) _ _ (some t) (λ x. dropped true x)
          (λ y.
            if_either (not b || is_known (Conf.id_in_conf s.memb.commit_membership p.head.proc_id))
              _ _ (some t)
              (λ x.
                let (u, freed, e) = >>=-eq-some (deliver_and_free i s) _ x in
                Quiet-trans s u t (deliver_and_free-Quiet i s u freed)
                  (after_transitional-Quiet n (suc i) b u t e))
              (λ x. dropped b x) y)
          z)
      h

transitional-state :
    (cn : Configuration) (m k : Memb)
    → transitional cn m ≡ some k
    → (k.state ≡ m.state) × (k.token_alive ≡ m.token_alive)
unfolding transitional
transitional-state cn m k h =
    let c = m.commit_set in
    let (trans, _, h1) =
      >>=-eq-some (keep_segments cn (take c.num_pending c.members) cn.segments) _ h in
    let (first, _, h2) =
      >>=-eq-some (Conf.leader (record m.trans_membership { segments = trans })) _ h1 in
    let (committed, _, e) =
      >>=-eq-some (keep_segments cn (take c.num_members c.members) cn.segments) _ h2 in
    (
      sym (ap (λ (x : Memb). x.state) (some-eq e)),
      sym (ap (λ (x : Memb). x.token_alive) (some-eq e)),
    )

deliver_transitional-Quiet : (s t : Prot) → deliver_transitional s ≡ some t → Quiet s t
unfolding deliver_transitional
deliver_transitional-Quiet s t h =
    let (k, done, e) = >>=-eq-some (transitional s.conf s.memb) _ h in
    let (st, al) = transitional-state s.conf s.memb k done in
    Quiet-some s _ t e (record { state = st; alive = al; timers = refl })

-- The end of a membership change: the new membership is installed.
regular-IsRound : (s t : Prot) → s.memb.state ≡ State.evs → regular s ≡ some t → IsRound s t
unfolding regular install
regular-IsRound s t evs h =
    let (leader_id, _, e) = >>=-eq-some (Conf.leader (install s.my.id s.memb).membership) _ h in
    let q = record s { memb = install s.my.id s.memb } in
    let u =
      if leader_id == s.my.id
      then emit (Effect.e_queue Event.lookup_new_members Delay.lookup_timeout) q
      else q in
    let same : Quiet q u =
      Quiet-if (leader_id == s.my.id) q _ q (record { state = refl; alive = refl; timers = refl })
        (Quiet-refl q) in
    let last : Quiet q t = Quiet-some q _ t e (
      Quiet-if s.need_conf_reload q _ u
        (Quiet-trans q u _ same (record { state = refl; alive = refl; timers = refl })) same) in
    record { alive = last.alive; state = inr (evs, last.state); timers = inl last.timers }

clear_queues-Quiet : (s : Prot) → Quiet s (clear_queues s)
unfolding clear_queues
clear_queues-Quiet s = record { state = refl; alive = refl; timers = refl }

deliver_regular-IsRound :
    (s t : Prot) → s.memb.state ≡ State.evs → deliver_regular s ≡ some t → IsRound s t
unfolding deliver_regular
deliver_regular-IsRound s t evs h =
    let c = clear_queues s in
    let q = clear_queues-Quiet s in
    let (u, installed, e) = >>=-eq-some (regular c) _ h in
    let r = regular-IsRound c u (q.state ∙ evs) installed in
    IsRound-trans s u t (IsRound-trans s c u (Quiet-IsRound s c q) r) (
      Quiet-IsRound u t (Quiet-some u _ t e (record { state = refl; alive = refl; timers = refl })))

leave_reload-Quiet : (s t : Prot) → leave_reload s ≡ some t → Quiet s t
unfolding leave_reload
leave_reload-Quiet s t h =
    if_either (not s.in_reload_singleton) (some s) _ (some t) (λ x. same-Quiet s t x)
      (λ y.
        if_either (not (s.gstate == 1) || not (Conf.num_procs s.memb.reg_membership == 1)) none _
          (some t) (λ x. cc)
          (λ x. Quiet-some s _ t x (record { state = refl; alive = refl; timers = refl })) y)
      h

discard_evs-IsRound : (s t : Prot) → s.memb.state ≡ State.evs → discard_evs s ≡ some t → IsRound s t
unfolding discard_evs reset_sequence
discard_evs-IsRound s t evs h =
    let (a, before, h1) =
      >>=-eq-some (before_transitional (s.highest_seq - s.last_discarded) (suc s.last_discarded) s)
        _ h in
    let (b, trans, h2) = >>=-eq-some (deliver_transitional a) _ h1 in
    let (c, after, h3) =
      >>=-eq-some
        (after_transitional (b.highest_seq - b.last_discarded) (suc b.last_discarded) false b) _
        h2 in
    let q =
      Quiet-trans s b c
        (Quiet-trans s a b (before_transitional-Quiet _ _ s a before)
          (deliver_transitional-Quiet a b trans))
        (after_transitional-Quiet _ _ false b c after) in
    if_either (not (all_free 8192 c.packets)) none _ (some t) (λ x. cc)
      (λ x.
        let (d, installed, h4) = >>=-eq-some (deliver_regular c) _ x in
        let (e, left, k) = >>=-eq-some (leave_reload d) _ h4 in
        let r =
          IsRound-trans s c d (Quiet-IsRound s c q)
            (deliver_regular-IsRound c d (q.state ∙ evs) installed) in
        let w = leave_reload-Quiet d e left in
        IsRound-trans s d t r (
          Quiet-IsRound d t
            (Quiet-some d _ t k (record { state = w.state; alive = w.alive; timers = w.timers }))))
      h3

is_evs-true : (st : State) → is_evs st ≡ true → st ≡ State.evs
is_evs-true State.op h = cc
is_evs-true State.seg h = cc
is_evs-true State.represented h = cc
is_evs-true State.gather h = cc
is_evs-true State.form h = cc
is_evs-true State.evs h = refl

pub discard_packets-IsRound : (s t : Prot) → discard_packets s ≡ some t → IsRound s t
unfolding discard_packets
discard_packets-IsRound s t h = elim (Bool-cases (is_evs s.memb.state)) [
  | inr b ↦ Quiet-IsRound s t (discard_packets-Quiet s t b h)
  | inl b ↦
      if_either (leb s.aru s.last_discarded) (some s) _ (some t)
        (λ x. Quiet-IsRound s t (same-Quiet s t x))
        (λ y.
          if_either (not (s.aru == s.last_seq)) (some s) _ (some t)
            (λ x. Quiet-IsRound s t (same-Quiet s t x))
            (λ x. discard_evs-IsRound s t (is_evs-true s.memb.state b) x) (rw b at y))
        h
]
