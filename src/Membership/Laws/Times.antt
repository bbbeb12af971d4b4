-- ===== src/Membership/Laws/Times.antt =====
-- The times of membership identifiers, in daemon/membership.c.
use java_spread_assignment.Base.{
  ℕ, ◌<◌, List, not, ◌==◌, ◌≡◌, inl, inr, true, false, Bool-cases, arith,
}
use java_spread_assignment.Base.Int.{ℤ, pos, negsuc, ltb_ℤ, ◌+ℤ◌, ◌≤ℤ◌, int_laws}
use java_spread_assignment.NetTypes.{MembershipId}
use java_spread_assignment.Memb.{MembersInfo}
use java_spread_assignment.Memb.Reps.{Rep, RepsInfo, RingInfo}
use java_spread_assignment.Membership.State.{Machine}
use java_spread_assignment.Membership.Form1.{int32_bits, to_int32, new_time, keep_form1}
use java_spread_assignment.Membership.Form2.{NewId, name_membership, trans_time_of}

to_int32-in_range : (z : ℤ) → negsuc 2147483647 ≤ℤ z → z ≤ℤ pos 2147483647 → to_int32 z ≡ z
unfolding to_int32 int32_bits
to_int32-in_range (pos n) h k = ground arith
to_int32-in_range (negsuc n) h k = ground arith

-- An int32 that can be counted up `room` times.
abbrev pub HasRoom : ℕ → ℤ → Type 0
HasRoom room z = (negsuc 2147483647 ≤ℤ z) × (z +ℤ pos room ≤ℤ pos 2147483647)

suc-grows : (z : ℤ) → ltb_ℤ z (z +ℤ pos 1) ≡ true
unfolding ◌+ℤ◌
suc-grows (pos n) = ground arith
suc-grows (negsuc n) = ground arith

next-grows : (z : ℤ) → HasRoom 1 z → ltb_ℤ z (to_int32 (z +ℤ pos 1)) ≡ true
next-grows z h =
    let next : to_int32 (z +ℤ pos 1) ≡ z +ℤ pos 1 =
      to_int32-in_range (z +ℤ pos 1) (omega int_laws) h.1 in
    rw next (suc-grows z)

clock_lem : (now : ℕ) → now < 2147483647 → to_int32 (pos now) ≡ pos now
clock_lem now h = to_int32-in_range (pos now) (omega arith) (omega arith)

new_time-grows :
    (now : ℕ) (last : ℤ) → now < 2147483647 → HasRoom 1 last → ltb_ℤ last (new_time now last) ≡ true
unfolding new_time
new_time-grows now last c h = elim (Bool-cases (ltb_ℤ last (to_int32 (pos now)))) [
  | inl b ↦ simp (b, b)
  | inr b ↦ rw b (next-grows last h)
]

-- And the new time can be counted up once more.
new_time-HasRoom :
    (now : ℕ) (last : ℤ) → now < 2147483647 → HasRoom 2 last → HasRoom 1 (new_time now last)
unfolding new_time
new_time-HasRoom now last c h =
    let clock = clock_lem now c in
    let next : to_int32 (last +ℤ pos 1) ≡ last +ℤ pos 1 =
      to_int32-in_range (last +ℤ pos 1) (omega int_laws) (omega int_laws) in
    elim (Bool-cases (ltb_ℤ last (pos now))) [
      | inl b ↦ simp (clock, b) (omega int_laws, omega int_laws)
      | inr b ↦ simp (clock, b, next) (omega int_laws, omega int_laws)
    ]

ltb_ℤ-trans : (a b c : ℤ) → ltb_ℤ a b ≡ true → ltb_ℤ b c ≡ true → ltb_ℤ a c ≡ true
ltb_ℤ-trans a b c h k = ground arith

ltb_ℤ-asym : (a b : ℤ) → ltb_ℤ a b ≡ true → ltb_ℤ b a ≡ false
ltb_ℤ-asym a b h = ground arith

ltb_ℤ-irrefl : (a : ℤ) → ltb_ℤ a a ≡ false
ltb_ℤ-irrefl a = ground arith

trans_time-kept :
    (now : ℕ) (new : NewId) (r : RingInfo)
    → now < 2147483647
    → HasRoom 1 new.last_time
    → ltb_ℤ (trans_time_of now new r).1 new.last_time ≡ false
unfolding trans_time_of
trans_time-kept now new r c h = elim (Bool-cases (not (r.trans_time == 0))) [
  | inl b ↦ rw b (ltb_ℤ-irrefl new.last_time)
  | inr b ↦ elim (Bool-cases (not (new.memb_time == 0))) [
    | inl d ↦ rw (b, d) (ltb_ℤ-irrefl new.last_time)
    | inr d ↦ rw (b, d) (ltb_ℤ-asym new.last_time _ (new_time-grows now new.last_time c h))
  ]
]

HasRoom-less : (z : ℤ) → HasRoom 2 z → HasRoom 1 z
HasRoom-less z h = (h.0, omega int_laws)

-- As long as the clock has not reached the last value of an int32 but one, and the last time used can be
-- counted up twice as an int32, the time of the last membership identifier never falls, whatever the clock
-- says: it grows when a daemon creates a form1 token and when it names a membership as the first daemon
-- of a form2 token, and it does not fall when the daemon gives its old ring the time of a transitional
-- membership.
pub times_grow :
    (now : ℕ) (members : MembersInfo) (reps : RepsInfo) (potential : List Rep) (id : MembershipId)
    (r : RingInfo) (m : Machine)
    → now < 2147483647
    → HasRoom 2 m.last_time_used
    → let new = name_membership now true id m in
      (ltb_ℤ m.last_time_used (keep_form1 now members reps potential m).last_time_used ≡ true)
      × (ltb_ℤ m.last_time_used new.last_time ≡ true)
      × (ltb_ℤ (trans_time_of now (name_membership now false id m) r).1 m.last_time_used ≡ false)
unfolding keep_form1 name_membership trans_time_of
times_grow now members reps potential id r m c h =
    let last = m.last_time_used in
    let one = HasRoom-less last h in
    let grows = new_time-grows now last c one in
    (
      grows,
      ltb_ℤ-trans last (new_time now last) _ grows
          (next-grows (new_time now last) (new_time-HasRoom now last c h)),
      trans_time-kept now (name_membership now false id m) r c one,
    )
