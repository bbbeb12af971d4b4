-- ===== src/Memb/Reps.antt =====
-- The sets of representatives of daemon/membership.c: insertion, the smallest one, and sorting. `cn` is
-- the daemon's configuration; `none` is a fatal alarm, or a read behind the representatives.
use java_spread_assignment.Base.{
  ℕ, zero, suc, ◌+◌, ◌*◌, Bool, true, false, List, [], ◌∷◌, ◌++◌, Option, none, some, ◌==◌, ltb,
  ◌&&◌, if◌then◌else◌, length, take, get_elem?, set,
}
use java_spread_assignment.Base.Seqs.{◌>>=◌}
use java_spread_assignment.NetTypes.{MembershipId}
use java_spread_assignment.Conf.{Proc, Configuration}
use java_spread_assignment.Memb.Sets.{proc_of}

-- POTENTIAL_REP, SEG_REP and RING_REP; a message can hold other types.
abbrev pub potential_rep : ℕ
potential_rep = 0

abbrev pub seg_rep : ℕ
seg_rep = 1

abbrev pub ring_rep : ℕ
ring_rep = 2

abbrev pub max_reps : ℕ
max_reps = 25

-- `rep_info`
pub record Rep : Type 0 where
  pub proc_id : ℕ
  pub type : ℕ
  pub seg_index : ℕ

-- `reps_info`; `num_reps` is the length of the list.
pub record RepsInfo : Type 0 where
  pub rep_index : ℕ
  pub reps : List Rep

-- `ring_info`, with the sequence numbers of its holes and the identifiers behind them; `num_holes` and
-- `num_commit` are the lengths of the lists, and the first `num_trans` of `commit` are the
-- transitional members.
pub record RingInfo : Type 0 where
  pub memb_id : MembershipId
  pub trans_time : ℕ
  pub aru : ℕ
  pub highest_seq : ℕ
  pub holes : List ℕ
  pub num_trans : ℕ
  pub commit : List ℕ

-- Someone of the segment is there.
unfoldable pub has_segment : ℕ → List Rep → Bool
has_segment seg [] = false
has_segment seg (r ∷ rs) =
    let rest = has_segment seg rs in if r.seg_index == seg then true else rest

-- The rest of a loop that has passed one representative.
abbrev pub behind : Rep → Option (ℕ × List Rep) → Option (ℕ × List Rep)
behind r none = none
behind r (some (ret, rs)) = some (ret, r ∷ rs)

-- The loop for a SEG_REP: `none` if it comes to its end without a return.
unfoldable pub place_seg : Proc → List Rep → Option (ℕ × List Rep)
place_seg p [] = none
place_seg p (r ∷ rs) =
    let rest = behind r (place_seg p rs) in
    if r.seg_index == p.seg_index
    then if r.type == potential_rep
      then some (1, record r { type = seg_rep; proc_id = p.id } ∷ rs)
      else if r.type == seg_rep
      then if r.proc_id == p.id then some (0, r ∷ rs) else rest
      else if (r.type == ring_rep) && (r.proc_id == p.id)
      then some (1, record r { type = seg_rep } ∷ rs)
      else rest
    else rest

-- The loop for a RING_REP.
unfoldable pub place_ring : Proc → List Rep → Option (ℕ × List Rep)
place_ring p [] = none
place_ring p (r ∷ rs) =
    let rest = behind r (place_ring p rs) in
    if r.seg_index == p.seg_index
    then if r.type == potential_rep
      then some (1, record r { type = ring_rep; proc_id = p.id } ∷ rs)
      else if r.type == seg_rep
      then if r.proc_id == p.id then some (1, record r { type = ring_rep } ∷ rs) else rest
      else if (r.type == ring_rep) && (r.proc_id == p.id)
      then some (0, r ∷ rs)
      else rest
    else rest

-- The end of the function, where no loop has returned.
unfoldable pub or_push : Option (ℕ × List Rep) → List Rep → Rep → ℕ × List Rep
or_push (some placed) rs rep = placed
or_push none rs rep = if length rs == max_reps then (0, rs) else (1, rs ++ (rep ∷ []))

unfoldable pub insert_rep : Configuration → List Rep → Rep → Option (ℕ × List Rep)
unfolding has_segment place_seg place_ring or_push
insert_rep cn rs rep = proc_of cn rep.proc_id >>= λ p.
    if rep.type == potential_rep
    then some (if has_segment p.seg_index rs then (0, rs) else or_push none rs rep)
    else if rep.type == seg_rep
    then some (or_push (place_seg p rs) rs rep)
    else if rep.type == ring_rep
    then some (or_push (place_ring p rs) rs rep)
    else none

-- Insertions one after another.
unfoldable pub insert_reps : Configuration → List Rep → List Rep → Option (List Rep)
unfolding insert_rep
insert_reps cn rs [] = some rs
insert_reps cn rs (rep ∷ more) = insert_rep cn rs rep >>= λ r. insert_reps cn r.1 more

-- `i` takes the place of `current`: a SEG_REP comes before a RING_REP, then the segments decide, and
-- for two RING_REPs of one segment the place in it. A current one of another type is a fatal alarm.
unfoldable pub rep_before : Configuration → Rep → Rep → Option Bool
rep_before cn i current =
    if current.type == seg_rep
    then some ((i.type == seg_rep) && ltb i.seg_index current.seg_index)
    else if current.type == ring_rep
    then if i.type == ring_rep
      then if ltb i.seg_index current.seg_index
        then some true
        else if i.seg_index == current.seg_index
        then (proc_of cn current.proc_id >>= λ p.
            proc_of cn i.proc_id >>= λ q. some (ltb q.index_in_seg p.index_in_seg))
        else some false
      else some (i.type == seg_rep)
    else none

unfoldable pub smallest_rep_from : Configuration → List Rep → ℕ → ℕ → Rep → Option (ℕ × Rep)
unfolding rep_before
smallest_rep_from cn [] i current r = some (current, r)
smallest_rep_from cn (q ∷ qs) i current r = rep_before cn q r >>= λ less.
    smallest_rep_from cn qs (suc i) (if less then i else current) (if less then q else r)

-- The index of the smallest representative, and the representative.
unfoldable pub smallest_rep : Configuration → List Rep → Option (ℕ × Rep)
unfolding smallest_rep_from
smallest_rep cn [] = none
smallest_rep cn (r ∷ rs) = smallest_rep_from cn rs 1 0 r

abbrev pub last_rep_or : List Rep → Rep → Rep
last_rep_or [] d = d
last_rep_or (r ∷ rs) d = last_rep_or rs r

-- The last one takes the place of the one that is removed.
unfoldable pub remove_rep : ℕ → List Rep → List Rep
remove_rep i [] = []
remove_rep i (r ∷ rs) = take (length rs) (set (r ∷ rs) i (last_rep_or rs r))

unfoldable pub sort_reps_loop : Configuration → ℕ → List Rep → Option (List Rep)
unfolding smallest_rep remove_rep
sort_reps_loop cn zero temp = some []
sort_reps_loop cn (suc n) temp = smallest_rep cn temp >>= λ s.
    sort_reps_loop cn n (remove_rep s.0 temp) >>= λ rest. some (s.1 ∷ rest)

unfoldable pub sort_reps : Configuration → List Rep → Option (List Rep)
unfolding sort_reps_loop
sort_reps cn rs = sort_reps_loop cn (length rs) rs

-- The first eight bytes of a `reps_info`, read as a `membership_id`.
unfoldable pub reps_as_id : RepsInfo → Option MembershipId
reps_as_id info = get_elem? info.reps 0 >>= λ r.
    some (record { proc_id = length info.reps + 65536 * info.rep_index; time = r.proc_id })
