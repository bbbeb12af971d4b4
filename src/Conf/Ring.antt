-- ===== src/Conf/Ring.antt =====
-- The ring of daemon/configuration.c: the segments one after another.
use java_spread_assignment.Base.{
  ℕ, suc, ◌+◌, ◌-◌, ◌≡◌, ◌≢◌, refl, sym, ap, ◌∙◌, List, [], ◌∷◌, ◌++◌, Option, none, some, arith,
  length, length-append, get_elem?,
}
use java_spread_assignment.Conf.{
  Proc, Segment, Configuration, num_procs, count_procs, leader, last, first_proc, last_proc,
  last_in, first_or, last_in_or, take_segs, drop_segs, seg_at, id_in_procs_from,
  previous_in_segments, previous_proc, or_else, previous_from,
}
use java_spread_assignment.Base.Seqs.{◌>>=◌, All}
use mathlib.Core.List.{reverse, append-nil, append_assoc, reverse-cons}

-- The processes in ring order.
abbrev pub members : List Segment → List Proc
members [] = []
members (s ∷ ss) = s.procs ++ members ss

pub members-append : (ss ts : List Segment) → members (ss ++ ts) ≡ members ss ++ members ts
members-append [] ts = refl
members-append (s ∷ ss) ts =
    ap (λ m. s.procs ++ m) (members-append ss ts)
    ∙ sym (append_assoc s.procs (members ss) (members ts))

abbrev pub head_of : List Proc → Option Proc
head_of ps = first_or ps none

abbrev pub last_of : List Proc → Option Proc
last_of [] = none
last_of (p ∷ []) = some p
last_of (p ∷ q ∷ ps) = last_of (q ∷ ps)

-- The last of a list, or another result for an empty one.
abbrev pub last_or_else : List Proc → Option Proc → Option Proc
last_or_else [] rest = rest
last_or_else (p ∷ ps) rest = last_of (p ∷ ps)

count_procs-members : (n : ℕ) (ss : List Segment) → count_procs n ss ≡ n + length (members ss)
unfolding count_procs
count_procs-members n [] = omega arith
count_procs-members n (s ∷ ss) =
    omega (arith, count_procs-members (n + length s.procs) ss, length-append s.procs (members ss))

first_or-append : (ps qs : List Proc) → first_or ps (first_or qs none) ≡ first_or (ps ++ qs) none
first_or-append [] qs = refl
first_or-append (p ∷ ps) qs = refl

first_proc-members : (ss : List Segment) → first_proc ss ≡ head_of (members ss)
unfolding first_proc
first_proc-members [] = refl
first_proc-members (s ∷ ss) =
    ap (first_or s.procs) (first_proc-members ss) ∙ first_or-append s.procs (members ss)

pub last_of-append :
    (ps : List Proc) (q : Proc) (qs : List Proc) → last_of (ps ++ (q ∷ qs)) ≡ last_of (q ∷ qs)
last_of-append [] q qs = refl
last_of-append (p ∷ []) q qs = refl
last_of-append (p ∷ r ∷ ps) q qs = last_of-append (r ∷ ps) q qs

get_elem?-last : (p : Proc) (ps : List Proc) → get_elem? (p ∷ ps) (length ps) ≡ last_of (p ∷ ps)
get_elem?-last p [] = refl
get_elem?-last p (q ∷ ps) = get_elem?-last q ps

last_in_or-last : (ps : List Proc) (rest : Option Proc) → last_in_or ps rest ≡ last_or_else ps rest
unfolding last_in_or last_in
last_in_or-last [] rest = refl
last_in_or-last (p ∷ ps) rest =
    let e : suc (length ps) - 1 ≡ length ps = omega arith in rw e (get_elem?-last p ps)

last_or_else-append :
    (ps qs : List Proc) (r : Option Proc)
    → last_or_else qs (last_or_else ps r) ≡ last_or_else (ps ++ qs) r
last_or_else-append [] qs r = refl
last_or_else-append (p ∷ ps) [] r = rw append-nil
last_or_else-append (p ∷ ps) (q ∷ qs) r = sym (last_of-append (p ∷ ps) q qs)

last_of-else : (ps : List Proc) → last_or_else ps none ≡ last_of ps
last_of-else [] = refl
last_of-else (p ∷ ps) = refl

-- What the loop finds from the end of a list of segments.
last_proc-snoc :
    (ss rest : List Segment)
    → last_proc (reverse ss ++ rest) ≡ last_or_else (members ss) (last_proc rest)
unfolding last_proc
last_proc-snoc [] rest = refl
last_proc-snoc (s ∷ ss) rest =
    ap (λ l. last_proc (l ++ rest)) (reverse-cons s ss)
    ∙ ap last_proc (append_assoc (reverse ss) (s ∷ []) rest)
    ∙ last_proc-snoc ss (s ∷ rest)
    ∙ ap (last_or_else (members ss)) (last_in_or-last s.procs (last_proc rest))
    ∙ last_or_else-append s.procs (members ss) (last_proc rest)

last_proc-members : (ss : List Segment) → last_proc (reverse ss) ≡ last_of (members ss)
unfolding last_proc
last_proc-members ss =
    ap last_proc (sym (append-nil (reverse ss))) ∙ last_proc-snoc ss [] ∙ last_of-else (members ss)

-- `Conf_num_procs` counts the ring, `Conf_leader` is its first process and `Conf_last` its last
-- one; both fail exactly on an empty ring.
pub leader-last_num :
    (config : Configuration)
    → (num_procs config ≡ length (members config.segments))
      × (leader config ≡ (head_of (members config.segments) >>= λ p. some p.id))
      × (last config ≡ (last_of (members config.segments) >>= λ p. some p.id))
unfolding num_procs leader last
leader-last_num config =
    let first : (first_proc config.segments ≡ head_of (members config.segments)) =
      first_proc-members config.segments in
    (
      count_procs-members 0 config.segments ∙ omega arith,
      ap (λ o. o >>= λ (p : Proc). some p.id) first,
      ap (λ o. o >>= λ (p : Proc). some p.id) (last_proc-members config.segments),
    )

pub take_segs-append : (pre post : List Segment) → take_segs (length pre) (pre ++ post) ≡ pre
take_segs-append [] post = refl
take_segs-append (s ∷ pre) post = ap (λ l. s ∷ l) (take_segs-append pre post)

drop_segs-append : (pre post : List Segment) → drop_segs (length pre) (pre ++ post) ≡ post
drop_segs-append [] post = refl
drop_segs-append (s ∷ pre) post = drop_segs-append pre post

pub seg_at-append :
    (pre : List Segment) (s : Segment) (post : List Segment)
    → seg_at (pre ++ (s ∷ post)) (length pre) ≡ s
seg_at-append [] s post = refl
seg_at-append (r ∷ pre) s post = seg_at-append pre s post

-- The index of the first process that has an identifier.
pub id_in_procs-found :
    (j : ℕ) (front : List Proc) (me : Proc) (back : List Proc) (id : ℕ)
    → All (λ (p : Proc). p.id ≢ id) front
    → me.id ≡ id
    → id_in_procs_from j (front ++ (me ∷ back)) id ≡ some (j + length front)
unfolding id_in_procs_from
id_in_procs-found j [] me back id a e = ground arith
id_in_procs-found j (p ∷ front) me back id a e =
    ground (arith, id_in_procs-found (suc j) front me back id a.1 e)

or_else-last : (ps : List Proc) (r : Option Proc) → or_else (last_of ps) r ≡ last_or_else ps r
or_else-last [] r = refl
or_else-last (p ∷ []) r = refl
or_else-last (p ∷ q ∷ ps) r = or_else-last (q ∷ ps) r

previous_in_segments-lem :
    (pre post : List Segment)
    → previous_in_segments (pre ++ post) (length pre)
      ≡ last_or_else (members pre) (last_of (members post))
unfolding previous_in_segments
previous_in_segments-lem pre post =
    rw (take_segs-append, drop_segs-append, last_proc-members, last_proc-members)
      (or_else-last (members pre) (last_of (members post)))

-- The last of a ring is that of its second part, where the first part is empty.
last_of-part :
    (ps front rest : List Proc)
    → last_or_else (ps ++ front) (last_of rest) ≡ last_or_else (ps ++ front) (last_of (ps ++ rest))
last_of-part [] front rest = refl
last_of-part (p ∷ ps) front rest = refl

get_elem?-front :
    (p : Proc) (front : List Proc) (me : Proc) (back : List Proc)
    → get_elem? (p ∷ front ++ (me ∷ back)) (length front) ≡ last_of (p ∷ front)
get_elem?-front p [] me back = refl
get_elem?-front p (q ∷ front) me back = get_elem?-front q front me back

previous_from-lem :
    (front : List Proc) (me : Proc) (back : List Proc) (rest : Option Proc)
    → previous_from (front ++ (me ∷ back)) (some (length front)) rest ≡ last_or_else front rest
previous_from-lem [] me back rest = refl
previous_from-lem (p ∷ front) me back rest = get_elem?-front p front me back

-- `Conf_previous` is the predecessor on the ring: if the daemon's segment is the one that the
-- configuration has at its index, and the daemon stands in it with no process of its identifier
-- before it there, then the result is the process just before it in ring order, and the last
-- process of the whole ring if there is none before it.
pub previous_is_predecessor :
    (my me : Proc) (config : Configuration) (pre post : List Segment) (front back : List Proc)
    → config.segments ≡ pre ++ (record { procs = front ++ (me ∷ back) } ∷ post)
    → length pre ≡ my.seg_index
    → All (λ (p : Proc). p.id ≢ my.id) front
    → me.id ≡ my.id
    → previous_proc my config
      ≡ last_or_else (members pre ++ front) (last_of (members config.segments))
unfolding previous_proc
previous_is_predecessor my me config pre post front back shape here others mine =
    let seg : Segment = record { procs = front ++ (me ∷ back) } in
    let zero_add : 0 + length front ≡ length front = omega arith in
    rw
      (
        shape,
        ← here,
        seg_at-append pre seg post,
        id_in_procs-found 0 front me back my.id others mine,
        zero_add,
      )
      (previous_from-lem front me back (previous_in_segments (pre ++ (seg ∷ post)) (length pre))
        ∙ ap (last_or_else front) (previous_in_segments-lem pre (seg ∷ post))
        ∙ last_or_else-append (members pre) front (last_of (members (seg ∷ post)))
        ∙ last_of-part (members pre) front (members (seg ∷ post))
        ∙ ap (λ l. last_or_else (members pre ++ front) (last_of l))
            (sym (members-append pre (seg ∷ post))))
