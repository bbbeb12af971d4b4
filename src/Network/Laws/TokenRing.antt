-- ===== src/Network/Laws/TokenRing.antt =====
-- The token that `Net_send_token` of daemon/network.c passes on goes round the ring that
-- `Conf_previous` of daemon/configuration.c goes back.
use java_spread_assignment.Base.{
  ℕ, ◌≡◌, ◌⊎◌, inl, inr, refl, sym, ap, ◌∙◌, List, [], ◌∷◌, ◌++◌, Option, some, map, ◌==◌, length,
}
use java_spread_assignment.Base.Seqs.{◌>>=◌}
use java_spread_assignment.Conf.{Proc, Segment, Configuration, num_segments, previous_proc}
use java_spread_assignment.Conf.Ring.{
  members, members-append, head_of, last_of, last_or_else, last_of-append, previous_is_predecessor,
}
use java_spread_assignment.Network.{Addressing, Network, set_membership}
use java_spread_assignment.Network.Laws.Successor.{IsPlaced, heads, set_membership-lem}
use mathlib.Core.List.{append_assoc, append_cancel_left, tail-eq_of_cons-eq}

last_or_else_snoc :
    (ps : List Proc) (p : Proc) (r : Option Proc) → last_or_else (ps ++ (p ∷ [])) r ≡ some p
last_or_else_snoc [] p r = refl
last_or_else_snoc (q ∷ ps) p r = last_of-append (q ∷ ps) p []

-- The ring as what stands before a daemon, the daemon, and what stands behind it.
ring_at :
    (config : Configuration) (my me : Proc) (pre post : List Segment) (front back : List Proc)
    → IsPlaced config my me pre post front back
    → members config.segments ≡ members pre ++ front ++ (me ∷ (back ++ members post))
ring_at config my me pre post front back h =
    let seg : Segment = record { procs = front ++ (me ∷ back) } in
    ap members h.shape ∙ members-append pre (seg ∷ post) ∙ simp append_assoc refl

abbrev IsNext : List Proc → List Proc → Proc → List Proc → Type 0
IsNext before' before me after = (before' ≡ before ++ (me ∷ [])) ⊎ ((before' ≡ []) × (after ≡ []))

-- The lists on the ring before and behind a daemon, and those of the daemon that follows it.
head_of_next :
    (me q : Proc) (ring before after before' after' : List Proc)
    → ring ≡ before ++ (me ∷ after)
    → ring ≡ before' ++ (q ∷ after')
    → IsNext before' before me after
    → head_of (after ++ (before ++ (me ∷ []))) ≡ some q
head_of_next me q ring before after before' after' e e' (inl n) =
    let cut : (after ≡ q ∷ after') = tail-eq_of_cons-eq (
      append_cancel_left before (me ∷ after) (me ∷ (q ∷ after')) (
        sym e ∙ e' ∙ ap (λ l. l ++ (q ∷ after')) n ∙ append_assoc before (me ∷ []) (q ∷ after'))) in
    rw cut refl
head_of_next me q ring before after before' after' e e' (inr n) = rw n.1 (
    ap head_of
      (ap (λ l. before ++ (me ∷ l)) (sym n.1) ∙ sym e ∙ e' ∙ ap (λ l. l ++ (q ∷ after')) n.0))

last_of_next :
    (me : Proc) (ring before after before' : List Proc)
    → ring ≡ before ++ (me ∷ after)
    → IsNext before' before me after
    → last_or_else before' (last_of ring) ≡ some me
last_of_next me ring before after before' e (inl n) =
    rw n (last_or_else_snoc before me (last_of ring))
last_of_next me ring before after before' e (inr n) =
    rw n.0 (ap last_of (e ∙ ap (λ l. before ++ (me ∷ l)) n.1) ∙ last_of-append before me [])

module _ {Addr : Type 0} (a : Addressing Addr) where
  abbrev installed : Network Addr → Proc → Configuration → List Proc → ℕ → Network Addr
  installed n q memb targets index = record n {
    net_membership = memb;
    segment_leader = index == 0;
    send_addrs = map a.proc_addr targets;
    token_addr = a.next_port (a.proc_addr q);
  }

  -- The token goes to the process that follows on the ring, and that one takes this daemon for its
  -- predecessor.
  pub token_comes_from_previous :
      (n : Network Addr) (me q : Proc) (memb : Configuration) (pre post pre' post' : List Segment)
      (front back front' back' : List Proc)
      → IsPlaced memb n.my me pre post front back
      → IsPlaced memb q q pre' post' front' back'
      → num_segments n.conf ≡ length memb.segments
      → (members pre' ++ front' ≡ members pre ++ front ++ (me ∷ []))
        ⊎ ((members pre' ++ front' ≡ []) × (back ++ members post ≡ []))
      → (m : Network Addr) × (set_membership a memb n ≡ some m)
        × (m.token_addr ≡ a.next_port (a.proc_addr q))
        × (previous_proc q memb ≡ some me)
  token_comes_from_previous n me q memb pre post pre' post' front back front' back' h k all next =
      let before = members pre ++ front in
      let after = back ++ members post in
      let ring : (members memb.segments ≡ before ++ (me ∷ after)) =
        ring_at memb n.my me pre post front back h in
      let head : (head_of (after ++ (before ++ (me ∷ []))) ≡ some q) =
        head_of_next me q (members memb.segments) before after (members pre' ++ front')
          (back' ++ members post') ring (ring_at memb q q pre' post' front' back' k) next in
      let regroup : (after ++ members pre ++ front ++ (me ∷ []) ≡ after ++ (before ++ (me ∷ []))) =
        simp append_assoc refl in
      (
        installed n q memb (heads pre ++ heads post) (length front),
        set_membership-lem a n me memb pre post front back h all
            ∙ ap
                (λ (o : Option Proc).
                  o >>= λ r. some (installed n r memb (heads pre ++ heads post) (length front)))
                (ap head_of regroup ∙ head),
        refl,
        previous_is_predecessor q q memb pre' post' front' back' k.shape k.here k.others k.mine
            ∙ last_of_next me (members memb.segments) before after (members pre' ++ front') ring
                next,
      )
