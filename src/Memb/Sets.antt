-- ===== src/Memb/Sets.antt =====
-- The sets of members of daemon/membership.c: insertion, the smallest member, and sorting by the place
-- in the configuration. `cn` is the daemon's configuration; `none` is the fatal alarm for a process
-- that it does not know, or a read behind the members.
use java_spread_assignment.Base.{
  ℕ, zero, suc, Bool, List, [], ◌∷◌, ◌++◌, Option, none, some, ◌==◌, ltb, ◌||◌, ◌&&◌, if◌then◌else◌,
  length, take, drop, get_elem?, set,
}
use java_spread_assignment.Base.Seqs.{◌>>=◌, last_or}
use java_spread_assignment.Conf
use java_spread_assignment.Conf.{Proc, Configuration}
use java_spread_assignment.Memb.{MembersInfo, id_among}

-- The set is full at MAX_PROCS_RING, 128. The result of the source is 1 if the process was inserted,
-- and 0 if it was there or the set
-- is full.
unfoldable pub insert_member : MembersInfo → ℕ → ℕ × MembersInfo
unfolding id_among
insert_member m proc_id =
    if id_among proc_id (take m.num_members m.members)
    then (0, m)
    else if m.num_members == 128
    then (0, m)
    else (
      1,
      record m {
        members = take m.num_members m.members ++ (proc_id ∷ drop (suc m.num_members) m.members);
        num_members = suc m.num_members;
      },
    )

unfoldable pub proc_of : Configuration → ℕ → Option Proc
proc_of cn id = Conf.proc_by_id_in_conf cn id >>= λ r. some r.1

-- The order of the ring: by segment, then by the place in it.
unfoldable pub is_before : Proc → Proc → Bool
is_before p q =
    ltb p.seg_index q.seg_index
    || ((p.seg_index == q.seg_index) && ltb p.index_in_seg q.index_in_seg)

-- The loop from index `i` on; `current` and `p` are the smallest one so far.
unfoldable pub smallest_from : Configuration → List ℕ → ℕ → ℕ → Proc → Option ℕ
unfolding proc_of is_before
smallest_from cn [] i current p = some current
smallest_from cn (id ∷ ids) i current p = proc_of cn id >>= λ q.
    smallest_from cn ids (suc i) (if is_before q p then i else current)
      (if is_before q p then q else p)

-- The index of the smallest of the members.
unfoldable pub smallest_member : Configuration → List ℕ → Option ℕ
unfolding smallest_from
smallest_member cn [] = none
smallest_member cn (id ∷ ids) = proc_of cn id >>= λ p. smallest_from cn ids 1 0 p

-- The last member takes the place of the one that is removed.
unfoldable pub remove_member : ℕ → List ℕ → List ℕ
remove_member i [] = []
remove_member i (id ∷ ids) = take (length ids) (set (id ∷ ids) i (last_or ids id))

-- The rounds of the sort: the members that are left, and those that it writes.
unfoldable pub sort_loop : Configuration → ℕ → List ℕ → Option (List ℕ)
unfolding smallest_member remove_member
sort_loop cn zero temp = some []
sort_loop cn (suc n) temp = smallest_member cn temp >>= λ i.
    get_elem? temp i >>= λ id. sort_loop cn n (remove_member i temp) >>= λ rest. some (id ∷ rest)

unfoldable pub sort_members : Configuration → MembersInfo → Option MembersInfo
unfolding sort_loop
sort_members cn m = sort_loop cn m.num_members (take m.num_members m.members) >>= λ ids.
    some (record m { members = ids ++ drop m.num_members m.members })
