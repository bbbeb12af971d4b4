-- ===== src/Network/Laws/Successor.antt =====
-- Where `Net_set_membership` of daemon/network.c sends the token, against the ring of
-- daemon/configuration.c.
use java_spread_assignment.Base.{
  ℕ, suc, ◌+◌, ◌-◌, ◌≤◌, ◌<◌, ◌≡◌, ◌≢◌, ◌⊎◌, inl, inr, true, false, Bool-cases, refl, sym, ap, ◌∙◌,
  List, [], ◌∷◌, ◌++◌, Option, none, some, map, arith, ◌==◌, ltb, if◌then◌else◌, length,
  length-append, get_elem?, length-map,
}
use java_spread_assignment.Base.Seqs.{◌>>=◌, All}
use java_spread_assignment.Conf.{
  Proc, Segment, Configuration, num_segments, first_or, id_in_seg, id_in_procs_from, take_segs,
  seg_at,
}
use java_spread_assignment.Conf.Ring.{members, head_of, seg_at-append, id_in_procs-found}
use java_spread_assignment.Network.{
  Addressing, Network, Targets, add_target, visit, targets_from, token_target, set_membership,
}
use mathlib.Core.List.{map-append, append-nil, append_assoc}

abbrev pub firsts : List Proc → List Proc → List Proc
firsts [] rest = rest
firsts (p ∷ ps) rest = p ∷ rest

-- The first processes of the segments that have one.
abbrev pub heads : List Segment → List Proc
heads [] = []
heads (s ∷ ss) = firsts s.procs (heads ss)

head_of-append : (ps rest : List Proc) → head_of (ps ++ rest) ≡ first_or ps (head_of rest)
head_of-append [] rest = refl
head_of-append (p ∷ ps) rest = refl

take_segs_all : (ss : List Segment) → take_segs (length ss) ss ≡ ss
take_segs_all [] = refl
take_segs_all (s ∷ ss) = ap (λ l. s ∷ l) (take_segs_all ss)

heads_then :
    (ps xs ys rest : List Proc)
    → head_of (xs ++ rest) ≡ head_of (ys ++ rest)
    → head_of (firsts ps xs ++ rest) ≡ head_of ((ps ++ ys) ++ rest)
heads_then [] xs ys rest e = e
heads_then (p ∷ ps) xs ys rest e = refl

heads-members :
    (ss : List Segment) (rest : List Proc)
    → head_of (heads ss ++ rest) ≡ head_of (members ss ++ rest)
heads-members [] rest = refl
heads-members (s ∷ ss) rest =
    heads_then s.procs (heads ss) (members ss) rest (heads-members ss rest)

bind_some :
    {A B C : Type 0} (o : Option A) (f : A → B) (g : B → Option C)
    → ((o >>= λ q. some (f q)) >>= g) ≡ (o >>= λ q. g (f q))
bind_some none f g = refl
bind_some (some q) f g = refl

get_elem?-after :
    (front : List Proc) (me : Proc) (back : List Proc)
    → get_elem? (front ++ (me ∷ back)) (suc (length front)) ≡ head_of back
get_elem?-after [] me [] = refl
get_elem?-after [] me (q ∷ qs) = refl
get_elem?-after (p ∷ front) me back = get_elem?-after front me back

get_elem?-zero : (ps : List Proc) → get_elem? ps 0 ≡ head_of ps
get_elem?-zero [] = refl
get_elem?-zero (p ∷ ps) = refl

-- Where a daemon stands in a configuration: it has the daemon's segment at its index, with `front`
-- before the daemon there and `back` behind it, and no process of its identifier in `front`.
pub record IsPlaced (config : Configuration) (my me : Proc) (pre post : List Segment)
    (front back : List Proc) : Type 0 where
  pub shape : config.segments ≡ pre ++ (record { procs = front ++ (me ∷ back) } ∷ post)
  pub here : length pre ≡ my.seg_index
  pub others : All (λ (p : Proc). p.id ≢ my.id) front
  pub mine : me.id ≡ my.id

module _ {Addr : Type 0} (a : Addressing Addr) where
  add_target-firsts :
      (ps rest : List Proc) (addrs : List Addr)
      → add_target a ps addrs ++ map a.proc_addr rest ≡ addrs ++ map a.proc_addr (firsts ps rest)
  unfolding add_target
  add_target-firsts [] rest addrs = refl
  add_target-firsts (p ∷ ps) rest addrs =
      append_assoc addrs (a.proc_addr p ∷ []) (map a.proc_addr rest)

  -- A part of the loop that does not meet this daemon's segment.
  targets_elsewhere :
      (mine i : ℕ) (ss : List Segment) (addrs : List Addr) (next : Option ℕ)
      → (i + length ss ≤ mine) ⊎ (mine < i)
      → targets_from a mine i ss (addrs, next) ≡ (addrs ++ map a.proc_addr (heads ss), next)
  unfolding targets_from visit
  targets_elsewhere mine i [] addrs next h = rw append-nil
  targets_elsewhere mine i (s ∷ ss) addrs next h = elim (Bool-cases (i == mine)) [
    | inl e ↦ absurd (ground arith)
    | inr e ↦ rw e (
        targets_elsewhere mine (suc i) ss (add_target a s.procs addrs) next (ground (arith, h))
        ∙ ap (λ l. (l, next)) (add_target-firsts s.procs (heads ss) addrs))
  ]

  targets_from-append :
      (mine i : ℕ) (ss ts : List Segment) (found : Targets Addr)
      → targets_from a mine i (ss ++ ts) found
        ≡ targets_from a mine (i + length ss) ts (targets_from a mine i ss found)
  unfolding targets_from
  targets_from-append mine i [] ts found = let e : i + 0 ≡ i = omega arith in rw e refl
  targets_from-append mine i (s ∷ ss) ts found =
      let e : i + suc (length ss) ≡ suc i + length ss = omega arith in
      rw e (targets_from-append mine (suc i) ss ts (visit a mine i s found))

  targets_found :
      (pre : List Segment) (s : Segment) (post : List Segment)
      → targets_from a (length pre) 0 (pre ++ (s ∷ post)) ([], none)
        ≡ (map a.proc_addr (heads pre ++ heads post), some (length (heads pre)))
  unfolding targets_from visit
  targets_found pre s post =
      let e : (length pre == length pre) ≡ true = ground arith in
      let step : (targets_from a (length pre) (length pre) (s ∷ post)
            (map a.proc_addr (heads pre), none)
          ≡ (map a.proc_addr (heads pre ++ heads post), some (length (heads pre)))) =
        rw (e, length-map, map-append)
          (targets_elsewhere (length pre) (suc (length pre)) post (map a.proc_addr (heads pre))
            (some (length (heads pre))) (inr (omega arith))) in
      let z : 0 + length pre ≡ length pre = omega arith in
      targets_from-append (length pre) 0 pre (s ∷ post) ([], none)
      ∙ ap
          (λ k.
            targets_from a (length pre) k (s ∷ post) (targets_from a (length pre) 0 pre ([], none)))
          z
      ∙ ap (λ t. targets_from a (length pre) (length pre) (s ∷ post) t)
          (targets_elsewhere (length pre) 0 pre [] none (inl (omega arith)))
      ∙ step

  get_elem?-mapped :
      (ps : List Proc) (q : Proc) (qs : List Proc)
      → get_elem? (map a.proc_addr (ps ++ (q ∷ qs))) (length ps) ≡ some (a.proc_addr q)
  get_elem?-mapped [] q qs = refl
  get_elem?-mapped (p ∷ ps) q qs = get_elem?-mapped ps q qs

  elsewhere :
      (front : List Proc) (me : Proc) (before after : List Proc)
      → (if length (map a.proc_addr (before ++ after)) == 0
          then (get_elem? (front ++ (me ∷ [])) 0 >>= λ p. some (a.proc_addr p))
          else if length (map a.proc_addr (before ++ after)) == length before
          then get_elem? (map a.proc_addr (before ++ after)) 0
          else get_elem? (map a.proc_addr (before ++ after)) (length before))
        ≡ (head_of (after ++ before ++ front ++ (me ∷ [])) >>= λ q. some (a.proc_addr q))
  elsewhere front me [] [] = rw get_elem?-zero refl
  elsewhere front me [] (q ∷ qs) = ground arith
  elsewhere front me (b ∷ bs) [] =
      ground (arith, length-map (bs ++ []) a.proc_addr, length-append bs [])
  elsewhere front me (b ∷ bs) (q ∷ qs) = ground (
    arith,
    length-map (bs ++ (q ∷ qs)) a.proc_addr,
    length-append bs (q ∷ qs),
    get_elem?-mapped bs q qs,
  )

  token_target-lem :
      (me : Proc) (front back before after : List Proc)
      → token_target a
          (record { procs = front ++ (me ∷ back) })
          (length front)
          (map a.proc_addr (before ++ after))
          (length before)
        ≡ (head_of (back ++ after ++ before ++ front ++ (me ∷ [])) >>= λ q. some (a.proc_addr q))
  unfolding token_target
  token_target-lem me front [] before after =
      let e : ltb (length front) (length (front ++ (me ∷ [])) - 1) ≡ false =
        ground (arith, length-append front (me ∷ [])) in
      rw e (elsewhere front me before after)
  token_target-lem me front (q ∷ back) before after =
      let e : ltb (length front) (length (front ++ (me ∷ q ∷ back)) - 1) ≡ true =
        ground (arith, length-append front (me ∷ q ∷ back)) in
      rw (e, get_elem?-after front me (q ∷ back)) refl

  -- The first in a list of processes that is put together from the heads of segments.
  heads-ring :
      (back front rest : List Proc) (pre post : List Segment)
      → head_of (back ++ heads post ++ heads pre ++ front ++ rest)
        ≡ head_of (back ++ members post ++ members pre ++ front ++ rest)
  heads-ring back front rest pre post = simp append_assoc (
      head_of-append back (heads post ++ (heads pre ++ (front ++ rest)))
      ∙ ap (first_or back) (
          heads-members post (heads pre ++ (front ++ rest))
          ∙ head_of-append (members post) (heads pre ++ (front ++ rest))
          ∙ ap (first_or (members post)) (heads-members pre (front ++ rest))
          ∙ sym (head_of-append (members post) (members pre ++ (front ++ rest))))
      ∙ sym (head_of-append back (members post ++ (members pre ++ (front ++ rest)))))

  -- What `Net_set_membership` does for a daemon that stands in the new membership.
  pub set_membership-lem :
      (n : Network Addr) (me : Proc) (memb : Configuration) (pre post : List Segment)
      (front back : List Proc)
      → IsPlaced memb n.my me pre post front back
      → num_segments n.conf ≡ length memb.segments
      → set_membership a memb n ≡ (
          head_of (back ++ members post ++ members pre ++ front ++ (me ∷ [])) >>= λ q.
          some (record n {
            net_membership = memb;
            segment_leader = length front == 0;
            send_addrs = map a.proc_addr (heads pre ++ heads post);
            token_addr = a.next_port (a.proc_addr q);
          }))
  unfolding set_membership id_in_seg
  set_membership-lem n me memb pre post front back h all =
      let seg : Segment = record { procs = front ++ (me ∷ back) } in
      let at_mine : (seg_at memb.segments n.my.seg_index ≡ seg) =
        ap (λ l. seg_at l n.my.seg_index) h.shape
        ∙ ap (seg_at (pre ++ (seg ∷ post))) (sym h.here)
        ∙ seg_at-append pre seg post in
      let whole : (take_segs (num_segments n.conf) memb.segments ≡ pre ++ (seg ∷ post)) =
        ap (λ k. take_segs k memb.segments) all ∙ take_segs_all memb.segments ∙ h.shape in
      let found : (targets_from a n.my.seg_index 0 (take_segs (num_segments n.conf) memb.segments)
            ([], none)
          ≡ (map a.proc_addr (heads pre ++ heads post), some (length (heads pre)))) =
        ap (λ l. targets_from a n.my.seg_index 0 l ([], none)) whole
        ∙ ap (λ k. targets_from a k 0 (pre ++ (seg ∷ post)) ([], none)) (sym h.here)
        ∙ targets_found pre seg post in
      let index : (id_in_procs_from 0 seg.procs n.my.id ≡ some (length front)) =
        id_in_procs-found 0 front me back n.my.id h.others h.mine
        ∙ ap some (let z : 0 + length front ≡ length front = omega arith in z) in
      rw (at_mine, found, index, token_target-lem, heads-ring)
        (bind_some (head_of (back ++ members post ++ members pre ++ front ++ (me ∷ []))) a.proc_addr
          (λ target. some (record n {
            net_membership = memb;
            segment_leader = length front == 0;
            send_addrs = map a.proc_addr (heads pre ++ heads post);
            token_addr = a.next_port target;
          })))
