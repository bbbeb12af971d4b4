-- ===== src/Membership/Fill.antt =====
-- `Fill_form1` of daemon/membership.c: a daemon puts itself, its members and its ring into the form1
-- token and passes it on. The token is the one after the flips of the byte order.
use java_spread_assignment.Base.{
  ℕ, suc, ◌+◌, ◌-◌, Bool, not, List, [], ◌∷◌, ◌++◌, Option, none, some, ◌==◌, ltb, ◌&&◌, ◌||◌,
  if◌then◌else◌, length, take, drop, get_elem?,
}
use java_spread_assignment.Base.Seqs.{◌>>=◌, filter_by}
use java_spread_assignment.NetTypes.{MembershipId}
use java_spread_assignment.Memb
use java_spread_assignment.Memb.{State, MembersInfo, id_among}
use java_spread_assignment.Memb.Sets.{insert_member, sort_members}
use java_spread_assignment.Memb.Reps.{RepsInfo, RingInfo, seg_rep, ring_rep, insert_reps}
use java_spread_assignment.Prot.State.{Event, Token, FormBody, FormToken, Prot, entry}
use java_spread_assignment.Prot.Retrans.{token_body_size}
use java_spread_assignment.Membership.State.{Machine, dequeue, state_of, is_alive_of}
use java_spread_assignment.Membership.Shift.{gathered, rep_ids}
use java_spread_assignment.Membership.Rings.{own_ring, holes_from, ring_info_size, rings_bytes}
use java_spread_assignment.Membership.Form1.{
  procs_of, ids_of_procs, write_front, pred, others_as_potential, pass_on, enter_form,
}

-- Identifiers written into an array from index `n` on.
abbrev pub write_at : ℕ → List ℕ → List ℕ → List ℕ
write_at n ids array = take n array ++ (ids ++ drop (n + length ids) array)

-- The members that the daemon brings: none that is in the token already, and no representative, of the
-- token or of the daemon, but itself.
unfoldable pub is_valid_member : ℕ → List ℕ → List ℕ → List ℕ → ℕ → Bool
is_valid_member my_id members token_reps own_reps id = not (
    id_among id members
    || ((id_among id token_reps && not (id == my_id))
        || (id_among id own_reps && not (id == my_id))))

-- What the token and the daemon have after the members are updated.
pub record Joined : Type 0 where
  pub members : MembersInfo
  pub reps : RepsInfo
  pub f_members : MembersInfo

-- A daemon that was pending is a member. `none` is a token that is not for the daemon.
unfoldable pub join_pending : ℕ → MembersInfo → RepsInfo → MembersInfo → Option (Option Joined)
join_pending my_id members reps f_members =
    get_elem? members.members members.num_members >>= λ next. some (
      if not (next == my_id) || (members.num_pending == 0)
      then none
      else some (record {
        members = record members {
          num_members = suc members.num_members;
          num_pending = members.num_pending - 1;
        };
        reps = reps;
        f_members = f_members;
      }))

-- New members behind those of the token: the daemon is the first of them, the others are pending.
unfoldable pub append_members : List ℕ → MembersInfo → Option MembersInfo
append_members ids s = pred (length ids) >>= λ pending. some (record {
  num_members = suc s.num_members;
  num_pending = pending;
  members = write_at s.num_members ids s.members;
})

-- A representative brings its members, or its ring.
unfoldable pub join_rep : MembersInfo → RepsInfo → Machine → Option (Option Joined)
unfolding is_valid_member append_members
join_rep members reps m = get_elem? reps.reps reps.rep_index >>= λ me.
    let my_id = m.prot.my.id in
    let valid =
      filter_by
        (is_valid_member my_id (take members.num_members members.members) (rep_ids reps.reps)
          (rep_ids m.f_reps.reps))
        (gathered m) in
    let ring = ids_of_procs (procs_of m.prot.memb.membership.segments) in
    let brought =
      if me.type == seg_rep then some valid else if me.type == ring_rep then some ring else none in
    if not (me.proc_id == my_id)
      || ((is_alive_of m && (me.type == seg_rep))
          || ((not (is_alive_of m) && (me.type == ring_rep)) || not (members.num_pending == 0)))
    then some none
    else (brought >>= λ ids. append_members ids members >>= λ joined. some (
        some (record {
          members = joined;
          reps = record reps { rep_index = suc reps.rep_index };
          f_members = record m.f_members {
            num_members = length valid;
            members = write_front valid m.f_members.members;
          };
        })))

unfoldable pub join_token : State → MembersInfo → RepsInfo → Machine → Option (Option Joined)
unfolding join_pending join_rep
join_token State.op members reps m = join_pending m.prot.my.id members reps m.f_members
join_token State.represented members reps m = join_pending m.prot.my.id members reps m.f_members
join_token State.gather members reps m = join_rep members reps m
join_token _ members reps m = none

-- The entry of the daemon's ring: the last one with its identifier.
unfoldable pub my_ring : MembershipId → List RingInfo → Option RingInfo
my_ring id [] = none
my_ring id (r ∷ rs) = elim (my_ring id rs) [
  | some found ↦ some found
  | none ↦ if Memb.is_equal r.memb_id id then some r else none
]

unfoldable pub other_rings : MembershipId → List RingInfo → List RingInfo
other_rings id rs = filter_by (λ r. not (Memb.is_equal r.memb_id id)) rs

unfoldable pub insert_members : MembersInfo → List ℕ → MembersInfo
unfolding insert_member
insert_members s [] = s
insert_members s (id ∷ ids) = insert_members (insert_member s id).1 ids

abbrev pub no_members : MembersInfo
no_members = record { num_members = 0; num_pending = 0; members = [] }

-- The transitional members, then the others of the ring's entry, then the daemon's commit set. It is a
-- fatal alarm if the transitional members are not different from each other and from the daemon.
unfoldable pub merge_commit : RingInfo → Prot → Option MembersInfo
unfolding insert_members
merge_commit r s =
    let trans = insert_members no_members (take r.num_trans r.commit ++ (s.my.id ∷ [])) in
    if not (trans.num_members == suc r.num_trans)
    then none
    else some (
        insert_members
          (insert_members (record trans { num_pending = suc r.num_trans })
            (drop r.num_trans r.commit))
          (take s.memb.commit_set.num_members s.memb.commit_set.members))

abbrev pub max : ℕ → ℕ → ℕ
max a b = if ltb a b then b else a

-- The holes that nobody up to this daemon has filled, and those behind the highest number so far.
unfoldable pub merge_holes : RingInfo → Prot → List ℕ
merge_holes r s =
    filter_by (λ h. (s.packets (entry h)).exist == 0) r.holes
    ++ holes_from (s.highest_seq - r.highest_seq) r.highest_seq s.packets

unfoldable pub merge_ring : RingInfo → Prot → Option RingInfo
unfolding merge_commit merge_holes
merge_ring r s = merge_commit r s >>= λ c. some (record {
  memb_id = s.memb.membership_id;
  trans_time = 0;
  aru = max s.aru r.aru;
  highest_seq = max s.highest_seq r.highest_seq;
  holes = merge_holes r s;
  num_trans = c.num_pending;
  commit = take c.num_members c.members;
})

abbrev pub max_form_reps : ℕ
max_form_reps = 20

-- The index of the first one that is `id`.
unfoldable pub index_of : ℕ → List ℕ → Option ℕ
index_of id [] = none
index_of id (k ∷ ks) =
    let rest = (index_of id ks >>= λ i. some (suc i)) in if k == id then some 0 else rest

-- `memmove` of what stands behind index `i`, up to the last of `total`.
abbrev pub close_gap : ℕ → ℕ → List ℕ → List ℕ
close_gap i total array =
    take i array ++ (take (total - suc i) (drop (suc i) array) ++ drop (total - 1) array)

-- A daemon whose ring does not fit leaves the token.
unfoldable pub leave_members : ℕ → MembersInfo → MembersInfo
unfolding index_of
leave_members my_id s = record s {
  num_members = s.num_members - 1;
  members = elim (index_of my_id (take s.num_members s.members)) [
    | none ↦ s.members
    | some i ↦ close_gap i (s.num_members + s.num_pending) s.members
  ];
}

-- The rings and the members of the token that is passed on.
unfoldable pub fill_rings :
    MembersInfo → List RingInfo → Prot → Option (List RingInfo × MembersInfo)
unfolding my_ring other_rings merge_ring leave_members
fill_rings members rings s =
    let id = s.memb.membership_id in
    let others = other_rings id rings in
    let with_ring = λ (r : RingInfo).
      let new : List RingInfo = others ++ (r ∷ []) in
      if ltb token_body_size (rings_bytes new) then none else some (new, members) in
    if ltb token_body_size (rings_bytes others + ring_info_size)
    then none
    else elim (my_ring id rings) [
      | some r ↦ merge_ring r s >>= with_ring
      | none ↦
          if ltb max_form_reps (suc (length others))
          then some (others, leave_members s.my.id members)
          else with_ring (own_ring s.last_discarded s)
    ]

-- The members of a form2 token, sorted and all pending, and the first of them.
unfoldable pub form2_members : Machine → MembersInfo → Option (ℕ × MembersInfo)
form2_members m s = sort_members m.prot.conf s >>= λ t. get_elem? t.members 0 >>= λ id.
    some (id, record t { num_pending = t.num_members; num_members = 0 })

abbrev pub fill_head : Prot → Token → Token
fill_head s h = record h { proc_id = s.my.id; seq = max h.seq (s.highest_seq + 3333) }

-- A token that the daemon has joined goes on, and the daemon waits for the form2 token.
unfoldable pub fill_joined : FormToken → Joined → Machine → Option Machine
unfolding fill_rings form2_members pass_on enter_form others_as_potential
fill_joined tok j m =
    insert_reps m.prot.conf [] (others_as_potential m.prot.my.seg_index j.reps.reps)
    >>= λ potential. fill_rings j.members tok.rings m.prot >>= λ filled.
        let t = record m {
          f_members = j.f_members;
          form1_memb_id = tok.head.memb_id;
          potential_reps = potential;
        } in
        pass_on (form2_members t filled.1)
          (record {
            head = fill_head m.prot tok.head;
            members = filled.1;
            body = FormBody.reps_body j.reps;
            rings = filled.0;
          })
          j.reps t
        >>= λ u.
            enter_form
              (dequeue Event.shift_to_seg (dequeue Event.form_or_fail (dequeue Event.send_join u)))

abbrev pub fill_or_drop : FormToken → Option Joined → Machine → Option Machine
fill_or_drop tok none m = some m
fill_or_drop tok (some j) m = fill_joined tok j m

-- A form1 token has the representatives behind the members; anything else there is not read.
unfoldable pub fill_form1 : FormToken → Machine → Option Machine
unfolding join_token fill_joined
fill_form1 tok m = elim tok.body [
  | FormBody.reps_body reps ↦
      join_token (state_of m) tok.members reps m >>= λ joined. fill_or_drop tok joined m
  | FormBody.id_body id ↦ none
]
