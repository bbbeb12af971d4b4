-- ===== src/Tests/MembTests.antt =====
-- Sets of members at concrete inputs.
use mathlib.Core.List.{Perm}
use java_spread_assignment.Base.{◌≡◌, refl, ◌⊎◌, true, [], ◌∷◌, some, arith, take, drop}
use java_spread_assignment.Conf
use java_spread_assignment.Memb.{MembersInfo, id_among}
use java_spread_assignment.Memb.Sets.{proc_of, insert_member, sort_members}
use java_spread_assignment.Memb.Sorting.{IsSorted, sort_members-IsSorted}
use java_spread_assignment.Memb.Insertion.{IsMemberSet, ids_of, insert_member-IsMemberSet}
use java_spread_assignment.Tests.Samples.{conf, first_proc, my_proc, last_proc}

abbrev mixed : MembersInfo
mixed = record { num_members = 3; num_pending = 0; members = 3 ∷ 1 ∷ 2 ∷ 9 ∷ [] }

sort_members-IsSorted_example :
    (t : MembersInfo) × (sort_members conf mixed ≡ some t)
    × (t.num_members ≡ 3)
    × Perm (3 ∷ 1 ∷ 2 ∷ []) (take t.num_members t.members)
    × IsSorted conf (take t.num_members t.members)
    × (drop t.num_members t.members ≡ 9 ∷ [])
unfolding proc_of Conf.proc_by_id_in_conf
sort_members-IsSorted_example =
    sort_members-IsSorted conf mixed (omega arith)
      ((last_proc, refl), ((first_proc, refl), ((my_proc, refl), tt)))

insert_member-IsMemberSet_example :
    let t = (insert_member mixed 7).1 in
    IsMemberSet t
    × (take 3 (ids_of t) ≡ 3 ∷ 1 ∷ 2 ∷ [])
    × ((id_among 7 (ids_of t) ≡ true) ⊎ ((mixed.num_members ≡ 128) × (t ≡ mixed)))
unfolding id_among
insert_member-IsMemberSet_example =
    insert_member-IsMemberSet mixed 7
      (record { bound = omega arith; inside = omega arith; distinct = (refl, (refl, (refl, tt))) })
