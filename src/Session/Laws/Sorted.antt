-- ===== src/Session/Laws/Sorted.antt =====
-- The list of sessions of daemon/session.c that `sort_next` and `sort_prev` link.
use java_spread_assignment.Base.{ℕ, ◌≡◌, ◌≢◌, sym, ◌∙◌, List, [], ◌∷◌, ◌++◌, Option, none, some}
use java_spread_assignment.Base.Seqs.{All, last_or, some-eq}
use java_spread_assignment.Session.{Table}
use java_spread_assignment.Session.Laws.Chains.{DistinctBy, All-last}
use java_spread_assignment.Session.Laws.Distinct.{
  All-split, All-map, DistinctBy-middle, DistinctBy-front, DistinctBy-last, DistinctBy-back,
}

-- From the pointer `o`, behind the session `p`, exactly these sessions follow, linked both ways,
-- and the last of them is the tail.
abbrev pub Links : Table → Option ℕ → Option ℕ → List ℕ → Type 0
Links t p o [] = (o ≡ none) × (t.tail ≡ p)
Links t p o (i ∷ is) =
    (o ≡ some i) × ((t.sessions i).sort_prev ≡ p) × Links t (some i) (t.sessions i).sort_next is

-- A session between `pv` and `nx` taken out of the list: the pointers to it were moved on, the
-- others are as they were.
pub record IsUnlinked (t u : Table) (i : ℕ) (pv nx : Option ℕ) : Type 0 where
  pub nexts : (x : ℕ) → x ≢ i → pv ≢ some x → (u.sessions x).sort_next ≡ (t.sessions x).sort_next
  pub prevs : (x : ℕ) → x ≢ i → nx ≢ some x → (u.sessions x).sort_prev ≡ (t.sessions x).sort_prev
  pub next : (x : ℕ) → x ≢ i → pv ≡ some x → (u.sessions x).sort_next ≡ nx
  pub prev : (x : ℕ) → x ≢ i → nx ≡ some x → (u.sessions x).sort_prev ≡ pv
  pub head : pv ≡ none → u.head ≡ nx
  pub head_kept : (x : ℕ) → pv ≡ some x → u.head ≡ t.head
  pub tail : nx ≡ none → u.tail ≡ pv
  pub tail_kept : (x : ℕ) → nx ≡ some x → u.tail ≡ t.tail

module _ (t u : Table) (i : ℕ) (pv nx : Option ℕ) (h : IsUnlinked t u i pv nx) where
  -- The part behind the next session, which no pointer changes in.
  Links-beyond :
      (p : ℕ) (o : Option ℕ) (ys : List ℕ)
      → u.tail ≡ t.tail
      → All (λ y. y ≢ i) ys
      → All (λ y. pv ≢ some y) ys
      → All (λ y. nx ≢ some y) ys
      → Links t (some p) o ys
      → Links u (some p) o ys
  Links-beyond p o [] e a b c l = (l.0, e ∙ l.1)
  Links-beyond p o (y ∷ ys) e a b c l = (
    l.0,
    h.prevs y a.0 c.0 ∙ l.1,
    rw (h.nexts y a.0 b.0) (Links-beyond y (t.sessions y).sort_next ys e a.1 b.1 c.1 l.2),
  )

  -- The part behind the session.
  Links-behind :
      (ys : List ℕ)
      → DistinctBy (λ y. y) ys
      → All (λ y. y ≢ i) ys
      → All (λ y. pv ≢ some y) ys
      → Links t (some i) nx ys
      → Links u pv nx ys
  Links-behind [] d a b l = (l.0, h.tail l.0)
  Links-behind (y ∷ ys) d a b l = (
    l.0,
    h.prev y a.0 l.0,
    rw (h.nexts y a.0 b.0) (
        Links-beyond y (t.sessions y).sort_next ys (h.tail_kept y l.0) a.1 b.1
          (All-map (λ z. z ≢ y) (λ z. nx ≢ some z) (λ z n e. n (some-eq (sym e ∙ l.0))) ys d.0)
          l.2),
  )

  -- The part before it, of which it has the last session for its predecessor.
  Links-before :
      (p o : Option ℕ) (x : ℕ) (xs ys : List ℕ)
      → DistinctBy (λ y. y) (x ∷ xs)
      → All (λ y. y ≢ i) (x ∷ xs)
      → All (λ y. nx ≢ some y) (x ∷ xs)
      → pv ≡ some (last_or xs x)
      → Links u pv nx ys
      → Links t p o (x ∷ (xs ++ (i ∷ ys)))
      → Links u p o (x ∷ (xs ++ ys))
  Links-before p o x [] ys d a c last k l =
      (l.0, h.prevs x a.0 c.0 ∙ l.1, rw (h.next x a.0 last, ← last) k)
  Links-before p o x (y ∷ xs) ys d a c last k l =
      let ne : pv ≢ some x = λ e. All-last (λ z. z ≢ x) y xs d.0.0 d.0.1 (some-eq (sym last ∙ e)) in
      (
        l.0,
        h.prevs x a.0 c.0 ∙ l.1,
        rw (h.nexts x a.0 ne)
            (Links-before (some x) (t.sessions x).sort_next y xs ys d.1 a.1 c.1 last k l.2),
      )

-- What the session that is taken out has before it and behind it.
sort_prev-Links :
    (t : Table) (p o : Option ℕ) (x : ℕ) (xs : List ℕ) (i : ℕ) (ys : List ℕ)
    → Links t p o (x ∷ (xs ++ (i ∷ ys)))
    → ((t.sessions i).sort_prev ≡ some (last_or xs x))
      × Links t (some i) (t.sessions i).sort_next ys
sort_prev-Links t p o x [] i ys l = (l.2.1, l.2.2)
sort_prev-Links t p o x (y ∷ xs) i ys l =
    sort_prev-Links t (some x) (t.sessions x).sort_next y xs i ys l.2

-- The sessions of the sorted list.
abbrev pub IsSortedList : Table → List ℕ → Type 0
IsSortedList t is = Links t none t.head is × DistinctBy (λ y. y) is

not_next :
    (t : Table) (i : ℕ) (xs ys : List ℕ)
    → Links t (some i) (t.sessions i).sort_next ys
    → DistinctBy (λ y. y) (xs ++ (i ∷ ys))
    → All (λ x. (t.sessions i).sort_next ≢ some x) xs
not_next t i [] ys l d = tt
not_next t i (x ∷ xs) [] l d = ((λ e. absurd cc), not_next t i xs [] l d.1)
not_next t i (x ∷ xs) (y ∷ ys) l d = (
  (λ e. (All-split (λ z. z ≢ x) xs (i ∷ y ∷ ys) d.0).1.1.0 (some-eq (sym l.0 ∙ e))),
  not_next t i xs (y ∷ ys) l d.1,
)

-- The list without the session.
pub IsUnlinked-IsSortedList :
    (t u : Table) (i : ℕ) (xs ys : List ℕ)
    → IsUnlinked t u i (t.sessions i).sort_prev (t.sessions i).sort_next
    → IsSortedList t (xs ++ (i ∷ ys))
    → IsSortedList u (xs ++ ys)
IsUnlinked-IsSortedList t u i [] ys h (l, d) =
    let behind =
      Links-behind t u i (t.sessions i).sort_prev (t.sessions i).sort_next h ys d.1 d.0
        (All-map (λ y. y ≢ i) (λ y. (t.sessions i).sort_prev ≢ some y) (λ y n e. absurd cc) ys d.0)
        l.2 in
    (rw (h.head l.1, ← l.1) behind, d.1)
IsUnlinked-IsSortedList t u i (x ∷ xs) ys h (l, d) =
    let (last, rest) = sort_prev-Links t none t.head x xs i ys l in
    let apart = DistinctBy-middle (λ y. y) (x ∷ xs) i ys d in
    let behind =
      Links-behind t u i (t.sessions i).sort_prev (t.sessions i).sort_next h ys
        (DistinctBy-back (xs) ys apart.2.1) apart.1
        (All-map (λ y. y ≢ last_or xs x) (λ y. (t.sessions i).sort_prev ≢ some y)
          (λ y n e. n (some-eq (sym e ∙ last))) ys (DistinctBy-last x xs ys apart.2))
        rest in
    (
      rw (h.head_kept (last_or xs x) last) (
          Links-before t u i (t.sessions i).sort_prev (t.sessions i).sort_next h none t.head x xs ys
            (DistinctBy-front (λ y. y) (x ∷ xs) (i ∷ ys) d) apart.0
            (not_next t i (x ∷ xs) ys rest d) last behind l),
      apart.2,
    )
