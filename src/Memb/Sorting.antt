-- ===== src/Memb/Sorting.antt =====
-- Sorting a set of members, `Sort_members` of daemon/membership.c.
use mathlib.Core.List.{Perm}
use mathlib.Core.List.Perm
use java_spread_assignment.Base.{
  ℕ, zero, suc, ◌+◌, ◌≡◌, refl, sym, ap, ◌∙◌, ◌⊎◌, inl, inr, Bool, true, false, List, [], ◌∷◌,
  Option, some, arith, length, drop, ◌≤◌, ◌++◌, take-append, drop-append, length-take, length-set,
  take, get_elem?, set, Bool-cases,
}
use java_spread_assignment.Base.Seqs.{some-eq, All, last_or}
use java_spread_assignment.Conf.{Proc, Configuration}
use java_spread_assignment.Memb.{MembersInfo}
use java_spread_assignment.Memb.Sets.{
  proc_of, is_before, smallest_from, smallest_member, remove_member, sort_loop, sort_members,
}

-- The daemon knows the process.
abbrev pub IsKnown : Configuration → ℕ → Type 0
IsKnown cn id = (p : Proc) × (proc_of cn id ≡ some p)

-- The first process comes before the second one in the configuration.
abbrev pub comes_before : Option Proc → Option Proc → Bool
comes_before (some p) (some q) = is_before p q
comes_before _ _ = false

-- No member comes before one that stands in front of it.
abbrev pub IsSorted : Configuration → List ℕ → Type 0
IsSorted cn [] = Unit
IsSorted cn (id ∷ ids) =
    All (λ (k : ℕ). comes_before (proc_of cn k) (proc_of cn id) ≡ false) ids × IsSorted cn ids

-- The process `q` is that of a member, at index `k` if the members start at `i`.
abbrev IsAt : Configuration → List ℕ → ℕ → ℕ → Proc → Type 0
IsAt cn ids i k q =
    (j : ℕ) × (id : ℕ) × (k ≡ i + j) × (get_elem? ids j ≡ some id) × (proc_of cn id ≡ some q)

-- What the loop of `Smallest_member` finds behind `i` members.
record Least (cn : Configuration) (ids : List ℕ) (i current : ℕ) (p : Proc) (k : ℕ) (q : Proc)
    : Type 0 where
  found : smallest_from cn ids i current p ≡ some k
  first : is_before p q ≡ false
  least : All (λ (id : ℕ). comes_before (proc_of cn id) (some q) ≡ false) ids
  place : ((k ≡ current) × (q ≡ p)) ⊎ IsAt cn ids i k q

is_before_trans :
    (p q r : Proc) → is_before p q ≡ false → is_before q r ≡ false → is_before p r ≡ false
unfolding is_before
is_before_trans p q r h k = ground arith

is_before_irrefl : (p : Proc) → is_before p p ≡ false
unfolding is_before
is_before_irrefl p = ground arith

is_before_asym : (p q : Proc) → is_before p q ≡ true → is_before q p ≡ false
unfolding is_before
is_before_asym p q h = ground arith

smallest_from-Least :
    (cn : Configuration) (ids : List ℕ) (i current : ℕ) (p : Proc)
    → All (IsKnown cn) ids
    → (k : ℕ) × (q : Proc) × Least cn ids i current p k q
unfolding smallest_from
smallest_from-Least cn [] i current p known = (
  current,
  p,
  record { found = refl; first = is_before_irrefl p; least = tt; place = inl (refl, refl) },
)
smallest_from-Least cn (id ∷ ids) i current p ((r, e), known) = elim (Bool-cases (is_before r p)) [
  | inl less ↦
      let (k, q, l) = smallest_from-Least cn ids (suc i) i r known in
      (
        k,
        q,
        record {
          found = simp (e, less, l.found);
          first = is_before_trans p r q (is_before_asym r p less) l.first;
          least = (rw e l.first, l.least);
          place = inr (behind_new k q l.place);
        },
      )
  | inr more ↦
      let (k, q, l) = smallest_from-Least cn ids (suc i) current p known in
      (
        k,
        q,
        record {
          found = simp (e, more, l.found);
          first = l.first;
          least = (rw e (is_before_trans r p q more l.first), l.least);
          place = behind k q l.place;
        },
      )
]
  where
    behind :
        (k : ℕ) (q : Proc) {A : Type 0} → A ⊎ IsAt cn ids (suc i) k q → A ⊎ IsAt cn (id ∷ ids) i k q
    behind k q (inl a) = inl a
    behind k q (inr (j, l, at_, g, f)) = inr (suc j, l, omega arith, g, f)

    behind_new :
        (k : ℕ) (q : Proc)
        → ((k ≡ i) × (q ≡ r)) ⊎ IsAt cn ids (suc i) k q
        → IsAt cn (id ∷ ids) i k q
    behind_new k q (inl (at_, same)) = (0, id, omega arith, refl, rw same e)
    behind_new k q (inr (j, l, at_, g, f)) = (suc j, l, omega arith, g, f)

least_at :
    (cn : Configuration) (ids : List ℕ) (m : ℕ) (q : Proc)
    → proc_of cn m ≡ some q
    → All (λ (id : ℕ). comes_before (proc_of cn id) (some q) ≡ false) ids
    → All (λ (id : ℕ). comes_before (proc_of cn id) (proc_of cn m) ≡ false) ids
least_at cn ids m q e a = rw e a

-- `Smallest_member` finds a member that no other one comes before.
smallest_member-lem :
    (cn : Configuration) (id : ℕ) (ids : List ℕ)
    → All (IsKnown cn) (id ∷ ids)
    → (k : ℕ) × (l : ℕ) × (smallest_member cn (id ∷ ids) ≡ some k)
      × (get_elem? (id ∷ ids) k ≡ some l)
      × All (λ (m : ℕ). comes_before (proc_of cn m) (proc_of cn l) ≡ false) (id ∷ ids)
unfolding smallest_member
smallest_member-lem cn id ids ((p, e), known) =
    let (k, q, l) = smallest_from-Least cn ids 1 0 p known in
    elim l.place [
      | inl (at_, same) ↦ (
        k,
        id,
        simp (e, l.found),
        rw at_ refl,
        (rw e (is_before_irrefl p), least_at cn ids id q (e ∙ ap some (sym same)) l.least),
      )
      | inr (j, m, at_, g, f) ↦
          let here : k ≡ suc j = omega arith in
          (k, m, simp (e, l.found), rw here g, (rw (f, e) l.first, least_at cn ids m q f l.least))
    ]

last_or-Perm : (y : ℕ) (ys : List ℕ) → Perm (y ∷ ys) (last_or ys y ∷ take (length ys) (y ∷ ys))
last_or-Perm y [] = Perm.refl _
last_or-Perm y (z ∷ zs) = Perm.trans (Perm.cons y (last_or-Perm z zs)) (Perm.swap _ y _)

-- What is left, with the member that was removed, are the members.
remove_member-Perm :
    (i id l : ℕ) (ids : List ℕ)
    → get_elem? (id ∷ ids) i ≡ some l
    → Perm (id ∷ ids) (l ∷ remove_member i (id ∷ ids))
unfolding remove_member
remove_member-Perm zero id l [] h = rw (← some-eq h) (Perm.refl _)
remove_member-Perm zero id l (y ∷ ys) h = rw (← some-eq h) (Perm.cons id (last_or-Perm y ys))
remove_member-Perm (suc i) id l [] h = cc
remove_member-Perm (suc i) id l (y ∷ ys) h =
    Perm.trans (Perm.cons id (remove_member-Perm i y l ys h)) (Perm.swap l id _)

All-take {ℓ} : (P : ℕ → Type ℓ) (n : ℕ) (ids : List ℕ) → All P ids → All P (take n ids)
All-take P zero ids a = tt
All-take P (suc n) [] a = tt
All-take P (suc n) (x ∷ ids) (p, a) = (p, All-take P n ids a)

All-set {ℓ} : (P : ℕ → Type ℓ) (ids : List ℕ) (i v : ℕ) → P v → All P ids → All P (set ids i v)
All-set P [] i v p a = tt
All-set P (x ∷ ids) zero v p (q, a) = (p, a)
All-set P (x ∷ ids) (suc i) v p (q, a) = (q, All-set P ids i v p a)

All-last_or {ℓ} : (P : ℕ → Type ℓ) (id : ℕ) (ids : List ℕ) → All P (id ∷ ids) → P (last_or ids id)
All-last_or P id [] (p, a) = p
All-last_or P id (y ∷ ys) (p, a) = All-last_or P y ys a

remove_member-All {ℓ} :
    (P : ℕ → Type ℓ) (i id : ℕ) (ids : List ℕ)
    → All P (id ∷ ids)
    → All P (remove_member i (id ∷ ids))
unfolding remove_member
remove_member-All P i id ids a =
    All-take P (length ids) _ (All-set P (id ∷ ids) i _ (All-last_or P id ids a) a)

length-remove_member : (i id : ℕ) (ids : List ℕ) → length (remove_member i (id ∷ ids)) ≡ length ids
unfolding remove_member
length-remove_member i id ids =
    length-take (length ids) _ ∙ omega (arith, length-set (id ∷ ids) i (last_or ids id))

get_elem?-All {ℓ} :
    (P : ℕ → Type ℓ) (k : ℕ) (ids : List ℕ) (l : ℕ) → get_elem? ids k ≡ some l → All P ids → P l
get_elem?-All P k [] l h a = cc
get_elem?-All P zero (x ∷ ids) l h (p, a) = rw (← some-eq h) p
get_elem?-All P (suc k) (x ∷ ids) l h (p, a) = get_elem?-All P k ids l h a

-- The sorted members, with what holds of all the members.
record Sorted (cn : Configuration) (n : ℕ) (temp ids : List ℕ) : Type 1 where
  done : sort_loop cn n temp ≡ some ids
  size : length ids ≡ n
  same : Perm temp ids
  sorted : IsSorted cn ids
  carry : (P : ℕ → Type 0) → All P temp → All P ids

sort_loop-Sorted :
    (cn : Configuration) (n : ℕ) (temp : List ℕ)
    → length temp ≡ n
    → All (IsKnown cn) temp
    → (ids : List ℕ) × Sorted cn n temp ids
unfolding sort_loop
sort_loop-Sorted cn zero [] h known =
    ([], record { done = refl; size = refl; same = Perm.refl []; sorted = tt; carry = λ P a. a })
sort_loop-Sorted cn zero (id ∷ ids) h known = absurd (omega arith)
sort_loop-Sorted cn (suc n) [] h known = absurd (omega arith)
sort_loop-Sorted cn (suc n) (id ∷ ids) h known =
    let (k, l, found, at_, least) = smallest_member-lem cn id ids known in
    let (rest, r) =
      sort_loop-Sorted cn n (remove_member k (id ∷ ids))
        (length-remove_member k id ids ∙ omega arith)
        (remove_member-All (IsKnown cn) k id ids known) in
    (
      l ∷ rest,
      record {
        done = simp (found, at_, r.done);
        size = ap suc r.size;
        same = Perm.trans (remove_member-Perm k id l ids at_) (Perm.cons l r.same);
        sorted = (r.carry _ (remove_member-All _ k id ids least), r.sorted);
        carry = λ P a.
            (get_elem?-All P k (id ∷ ids) l at_ a, r.carry P (remove_member-All P k id ids a));
      },
    )

-- If the daemon knows all members, `Sort_members` comes to its end and leaves the same members, each
-- as often as before, in the order of the configuration, by segment and by the place in it; their
-- number and what stands behind them in the array are as before.
pub sort_members-IsSorted :
    (cn : Configuration) (m : MembersInfo)
    → m.num_members ≤ length m.members
    → All (IsKnown cn) (take m.num_members m.members)
    → (t : MembersInfo) × (sort_members cn m ≡ some t)
      × (t.num_members ≡ m.num_members)
      × Perm (take m.num_members m.members) (take t.num_members t.members)
      × IsSorted cn (take t.num_members t.members)
      × (drop t.num_members t.members ≡ drop m.num_members m.members)
unfolding sort_members
sort_members-IsSorted cn m enough known =
    let n = m.num_members in
    let (ids, r) =
      sort_loop-Sorted cn n (take n m.members) (length-take n m.members ∙ omega arith) known in
    let front : take n (ids ++ drop n m.members) ≡ ids =
      ap (λ k. take k (ids ++ drop n m.members)) (sym r.size) ∙ take-append ids _ in
    let back : drop n (ids ++ drop n m.members) ≡ drop n m.members =
      ap (λ k. drop k (ids ++ drop n m.members)) (omega (arith, r.size))
      ∙ drop-append ids (drop n m.members) 0 in
    (
      record m { members = ids ++ drop n m.members },
      simp r.done,
      refl,
      rw front r.same,
      rw front r.sorted,
      back,
    )
