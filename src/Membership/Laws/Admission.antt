-- ===== src/Membership/Laws/Admission.antt =====
-- The tests of a token in `Prot_handle_token` of daemon/protocol.c, seen from the membership.
use java_spread_assignment.Base.{
  ◌%◌, ℕ, suc, ◌+◌, ◌≡◌, refl, sym, ap, ◌⊎◌, inl, inr, Bool, true, false, not, ◌&&◌, Option, some,
  ◌==◌, ltb, if◌then◌else◌,
}
use java_spread_assignment.Base.Seqs.{>>=-eq-some, some-eq, if_either, if_cases}
use java_spread_assignment.NetTypes.{get_arq, get_retrans, set_retrans}
use java_spread_assignment.Conf
use java_spread_assignment.Conf.{Proc}
use java_spread_assignment.Memb
use java_spread_assignment.Memb.{is_evs, is_op}
use java_spread_assignment.Prot.State.{Token, Effect, Event, Delay, Prot, emit}
use java_spread_assignment.Prot.Hurry.{leader_id, prot_token_hurry, is_last_of_segment, retransmit}
use java_spread_assignment.Prot.Retrans.{token_header_size}
use java_spread_assignment.Prot.Token.{max_wrap_sequence_value, just_installed, check_arq, admit}
use java_spread_assignment.Membership.Laws.Quiet.{
  Quiet, Quiet-refl, Quiet-trans, Quiet-if, Quiet-some,
}
use java_spread_assignment.Membership.Laws.Delivery.{pair-Quiet}

retransmit-Quiet : (s : Prot) → Quiet s (retransmit s)
unfolding retransmit
retransmit-Quiet s = record { state = refl; alive = refl; timers = refl }

retransmit_twice-Quiet : (s : Prot) → Quiet s (retransmit (retransmit s))
unfolding retransmit
retransmit_twice-Quiet s = record { state = refl; alive = refl; timers = refl }

pub prot_token_hurry-Quiet : (s t : Prot) → prot_token_hurry s ≡ some t → Quiet s t
unfolding prot_token_hurry
prot_token_hurry-Quiet s t h =
    let (first, _, h1) = >>=-eq-some (leader_id s) _ h in
    let a = record s { last_token = record s.last_token { rtr_len = 0 } } in
    let counted = record a {
      last_token = record a.last_token {
        type = set_retrans a.last_token.type (suc (get_retrans a.last_token.type));
      };
    } in
    let u =
      if first == s.my.id
      then emit (Effect.e_queue Event.token_hurry Delay.hurry_timeout) counted
      else a in
    let p : Quiet s u =
      Quiet-if (first == s.my.id) s _ a (record { state = refl; alive = refl; timers = refl })
        (record { state = refl; alive = refl; timers = refl }) in
    let (again, _, e) = >>=-eq-some (is_last_of_segment u) _ h1 in
    let v = if again then retransmit (retransmit u) else retransmit u in
    let q =
      Quiet-trans s u v p (Quiet-if again u _ _ (retransmit_twice-Quiet u) (retransmit-Quiet u)) in
    Quiet-some s _ t e (
      Quiet-if (ltb 1 (get_retrans v.last_token.type)) s _ v
        (Quiet-trans s v _ q (retransmit_twice-Quiet v)) q)

just_installed-Quiet : (s : Prot) → Quiet s (just_installed s)
unfolding just_installed
just_installed-Quiet s =
    Quiet-if s.memb.just_installed s _ s (record { state = refl; alive = refl; timers = refl })
      (Quiet-refl s)

check_arq-Quiet : (tok : Token) (b : Bool) (s t : Prot) → check_arq tok s ≡ some (b, t) → Quiet s t
unfolding check_arq
check_arq-Quiet tok b s t h =
    let (first, _, h1) = >>=-eq-some (leader_id s) _ h in
    let stay = λ (x : ◌≡◌ {A = Option (Bool × Prot)} (some (false, s)) (some (b, t))).
      pair-Quiet s s t false b x (Quiet-refl s) in
    let go = λ (x : ◌≡◌ {A = Option (Bool × Prot)} (some (true, just_installed s)) (some (b, t))).
      pair-Quiet s (just_installed s) t true b x (just_installed-Quiet s) in
    if_either (first == s.my.id) _ _ (some (b, t))
      (λ y.
        if_either (not (get_arq tok.type == get_arq s.last_token.type)) _ _ (some (b, t)) stay go y)
      (λ z.
        if_either (get_arq tok.type == get_arq s.last_token.type) _ _ (some (b, t))
          (λ y.
            if_either (ltb (get_retrans s.last_token.type) (get_retrans tok.type)) _ _ (some (b, t))
              (λ x.
                let u = record s {
                  last_token = record s.last_token {
                    type = set_retrans s.last_token.type (get_retrans tok.type);
                  };
                } in
                let (v, hurried, e) = >>=-eq-some (prot_token_hurry u) _ x in
                pair-Quiet s v t false b e (
                  Quiet-trans s u v (record { state = refl; alive = refl; timers = refl })
                    (prot_token_hurry-Quiet u v hurried)))
              stay y)
          (λ y.
            if_either (not (get_arq tok.type == (get_arq s.last_token.type + 1) % 16)) _ _
              (some (b, t)) stay go y)
          z)
      h1

not-false : (b : Bool) → not b ≡ false → b ≡ true
not-false true h = refl
not-false false h = cc

swallow-Quiet :
    (b : Bool) (s t : Prot)
    → ◌≡◌ {A = Option (Bool × Prot)} (some (false, s)) (some (b, t))
    → Quiet s t × ((b ≡ false) ⊎ (s.memb.token_alive ≡ true))
swallow-Quiet b s t x = (
  pair-Quiet s s t false b x (Quiet-refl s),
  inl (sym (ap (λ (r : Bool × Prot). r.0) (some-eq x))),
)

-- A token is used only by a daemon that has one to wait for.
pub admit-Quiet :
    (n : ℕ) (tok : Token) (b : Bool) (s t : Prot)
    → admit n tok s ≡ some (b, t)
    → Quiet s t × ((b ≡ false) ⊎ (s.memb.token_alive ≡ true))
unfolding admit
admit-Quiet n tok b s t h =
    let stay = swallow-Quiet b s t in
    if_cases (not s.memb.token_alive) _ _ (some (b, t)) (λ _ x. stay x)
      (λ a u.
        if_either (not (Memb.is_equal tok.memb_id (Memb.active_id s.memb))) _ _ (some (b, t)) stay
          (λ v.
            let (previous_id, _, h1) =
              >>=-eq-some (Conf.previous s.my (Memb.active_ptr s.memb)) _ v in
            if_either (not (tok.transmiter_id == previous_id)) _ _ (some (b, t)) stay
              (λ w.
                if_either (not (n == token_header_size + tok.rtr_len)) _ _ (some (b, t)) stay
                  (λ y.
                    if_either (not (is_evs s.memb.state) && ltb max_wrap_sequence_value tok.seq) _ _
                      (some (b, t)) stay
                      (λ x. (check_arq-Quiet tok b s t x, inr (not-false s.memb.token_alive a))) y)
                  w)
              h1)
          u)
      h
