-- ===== src/Memb/Insertion.antt =====
-- Inserting into a set of members, `Insert_member` of daemon/membership.c.
use java_spread_assignment.Base.{
  ℕ, zero, suc, ◌≡◌, ◌≤◌, refl, sym, ap, ◌∙◌, ◌⊎◌, inl, inr, true, false, List, [], ◌∷◌, ◌++◌, ◌==◌,
  arith, length, length-append, length-take, take, drop, take-append, Bool-cases, ==_iff,
}
use java_spread_assignment.Memb.{MembersInfo, id_among}
use java_spread_assignment.Memb.Sets.{insert_member}

abbrev pub IsDistinct : List ℕ → Type 0
IsDistinct [] = Unit
IsDistinct (id ∷ ids) = (id_among id ids ≡ false) × IsDistinct ids

abbrev pub ids_of : MembersInfo → List ℕ
ids_of m = take m.num_members m.members

-- The members are part of the array, no more than MAX_PROCS_RING, and different from each other.
pub record IsMemberSet (m : MembersInfo) : Type 0 where
  pub bound : m.num_members ≤ 128
  pub inside : m.num_members ≤ length m.members
  pub distinct : IsDistinct (ids_of m)

id_among-append :
    (id k : ℕ) (ids : List ℕ)
    → id_among k ids ≡ false
    → (k == id) ≡ false
    → id_among k (ids ++ (id ∷ [])) ≡ false
unfolding id_among
id_among-append id k [] h ne = let e : (id == k) ≡ false = ground arith in simp e
id_among-append id k (j ∷ ids) h ne = elim (Bool-cases (j == k)) [
  | inl same ↦ cc (rw same at h)
  | inr other ↦ simp (other, id_among-append id k ids (rw other at h) ne)
]

id_among-append_self : (id : ℕ) (ids : List ℕ) → id_among id (ids ++ (id ∷ [])) ≡ true
unfolding id_among
id_among-append_self id [] = let e : (id == id) ≡ true = ground arith in simp e
id_among-append_self id (j ∷ ids) = elim (Bool-cases (j == id)) [
  | inl same ↦ simp same
  | inr other ↦ simp (other, id_among-append_self id ids)
]

append-IsDistinct :
    (id : ℕ) (ids : List ℕ)
    → id_among id ids ≡ false
    → IsDistinct ids
    → IsDistinct (ids ++ (id ∷ []))
unfolding id_among
append-IsDistinct id [] h d = (refl, tt)
append-IsDistinct id (j ∷ ids) h (e, d) = elim (Bool-cases (j == id)) [
  | inl same ↦ cc (rw same at h)
  | inr other ↦ (id_among-append id j ids e other, append-IsDistinct id ids (rw other at h) d)
]

take-inserted :
    (n id : ℕ) (ms : List ℕ)
    → n ≤ length ms
    → take (suc n) (take n ms ++ (id ∷ drop (suc n) ms)) ≡ take n ms ++ (id ∷ [])
take-inserted zero id ms h = refl
take-inserted (suc n) id [] h = absurd (omega arith)
take-inserted (suc n) id (x ∷ ms) h = ap (λ t. x ∷ t) (take-inserted n id ms (omega arith))

take-take : (n : ℕ) (ms : List ℕ) → take n (take n ms) ≡ take n ms
take-take zero ms = refl
take-take (suc n) [] = refl
take-take (suc n) (x ∷ ms) = ap (λ t. x ∷ t) (take-take n ms)

take-take_append : (n : ℕ) (ms ys : List ℕ) → n ≤ length ms → take n (take n ms ++ ys) ≡ take n ms
take-take_append n ms ys h =
    ap (λ k. take k (take n ms ++ ys)) (sym (length-take n ms ∙ omega arith))
    ∙ take-append (take n ms) ys

-- `Insert_member` keeps a set of members one: its members stay different from each other, in the
-- array, and no more than MAX_PROCS_RING. Afterwards the process is a member, or the set was full and
-- nothing changed; the members of before are the first ones, in their order.
pub insert_member-IsMemberSet :
    (m : MembersInfo) (id : ℕ)
    → IsMemberSet m
    → let t = (insert_member m id).1 in
      IsMemberSet t
      × (take m.num_members (ids_of t) ≡ ids_of m)
      × ((id_among id (ids_of t) ≡ true) ⊎ ((m.num_members ≡ 128) × (t ≡ m)))
unfolding insert_member
insert_member-IsMemberSet m id s =
    let n = m.num_members in
    elim (Bool-cases (id_among id (ids_of m))) [
      | inl there ↦ rw there (s, take-take n m.members, inl there)
      | inr new ↦ elim (Bool-cases (n == 128)) [
        | inl full ↦ rw (new, full) (s, take-take n m.members, inr ((==_iff n 128).0 full, refl))
        | inr room ↦
            let ids = take-inserted n id m.members s.inside in
            rw (new, room)
              (
                record {
                  bound = ground (arith, s.bound);
                  inside = omega (
                    arith,
                    length-append (ids_of m) (id ∷ drop (suc n) m.members),
                    length-take n m.members,
                    s.inside,
                  );
                  distinct = rw ids (append-IsDistinct id (ids_of m) new s.distinct);
                },
                rw ids (take-take_append n m.members (id ∷ []) s.inside),
                inl (rw ids (id_among-append_self id (ids_of m))),
              )
      ]
    ]
