-- ===== src/Membership/Laws/Answers.antt =====
-- The answers to requests for retransmission of daemon/protocol.c change neither state nor timers, and
-- none of the levels.
use java_spread_assignment.Base.{ℕ, ◌≡◌, refl, not, List, [], ◌∷◌, none, some, ◌==◌, ltb}
use java_spread_assignment.Base.Seqs.{>>=-eq-some, if_either}
use java_spread_assignment.NetTypes.{no_id, no_seg}
use java_spread_assignment.Memb
use java_spread_assignment.Prot.State.{RingRtr, Prot, entry}
use java_spread_assignment.Prot.Retrans.{
  Answers, stamp_slot, resend, answer_seq, answer_seqs, answer_ring, answer_rings, answer_retrans,
}
use java_spread_assignment.Membership.Laws.Level.{Level, Level-refl, Level-trans, Level-if}
use java_spread_assignment.Membership.Laws.Delivery.{pair-Level}

resend-Level : (r : RingRtr) (e : ℕ) (s : Prot) → Level s (resend r e s)
unfolding resend stamp_slot
resend-Level r e s =
    Level-if (not (r.proc_id == no_id)) s _ _
      (record {
        state = refl;
        alive = refl;
        timers = refl;
        aru = refl;
        my_aru = refl;
        last_token = refl;
      })
      (Level-if (not (r.seg_index == no_seg)) s _ _
        (record {
          state = refl;
          alive = refl;
          timers = refl;
          aru = refl;
          my_aru = refl;
          last_token = refl;
        })
        (record {
          state = refl;
          alive = refl;
          timers = refl;
          aru = refl;
          my_aru = refl;
          last_token = refl;
        }))

answer_seq-Level :
    (r : RingRtr) (seq : ℕ) (a b : Answers) (s t : Prot)
    → answer_seq r seq a s ≡ some (b, t)
    → Level s t
unfolding answer_seq
answer_seq-Level r seq a b s t h =
    if_either (ltb seq s.aru) none _ (some (b, t)) (λ x. cc)
      (λ y.
        if_either (not ((s.packets (entry seq)).exist == 0)) _ _ (some (b, t))
          (λ x. pair-Level s _ t _ b x (resend-Level r (entry seq) s))
          (λ x. pair-Level s s t _ b x (Level-refl s)) y)
      h

answer_seqs-Level :
    (r : RingRtr) (seqs : List ℕ) (a b : Answers) (s t : Prot)
    → answer_seqs r seqs a s ≡ some (b, t)
    → Level s t
unfolding answer_seqs
answer_seqs-Level r [] a b s t h = pair-Level s s t a b h (Level-refl s)
answer_seqs-Level r (seq ∷ seqs) a b s t h =
    let (n, one, more) = >>=-eq-some (answer_seq r seq a s) _ h in
    Level-trans s n.1 t (answer_seq-Level r seq a n.0 s n.1 one)
      (answer_seqs-Level r seqs n.0 b n.1 t more)

answer_ring-Level :
    (r : RingRtr) (a b : Answers) (s t : Prot) → answer_ring r a s ≡ some (b, t) → Level s t
unfolding answer_ring
answer_ring-Level r a b s t h =
    if_either (Memb.is_equal r.memb_id s.memb.membership_id) _ _ (some (b, t))
      (λ x. answer_seqs-Level r r.seqs a b s t x) (λ x. pair-Level s s t _ b x (Level-refl s)) h

answer_rings-Level :
    (rs : List RingRtr) (a b : Answers) (s t : Prot) → answer_rings rs a s ≡ some (b, t) → Level s t
unfolding answer_rings
answer_rings-Level [] a b s t h = pair-Level s s t a b h (Level-refl s)
answer_rings-Level (r ∷ rs) a b s t h =
    let (n, one, more) = >>=-eq-some (answer_ring r a s) _ h in
    Level-trans s n.1 t (answer_ring-Level r a n.0 s n.1 one)
      (answer_rings-Level rs n.0 b n.1 t more)

pub answer_retrans-Level :
    (body : List RingRtr) (b : Answers) (s t : Prot)
    → answer_retrans body s ≡ some (b, t)
    → Level s t
unfolding answer_retrans
answer_retrans-Level body b s t h = answer_rings-Level body _ b s t h
