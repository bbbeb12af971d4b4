-- ===== src/Session/Laws/Removal.antt =====
-- `Sess_remove_session` of daemon/session.c on the sorted list.
use java_spread_assignment.Base.{
  ℕ, ◌≡◌, ◌≢◌, inl, inr, refl, sym, ap, ◌∙◌, Bool-cases, List, ◌∷◌, ◌++◌, Option, none, some, ◌==◌,
  ==_iff,
}
use java_spread_assignment.Base.Seqs.{some-eq}
use java_spread_assignment.NetTypes.{no_id}
use java_spread_assignment.Session.{
  Session, Table, change, with_sort_next, with_sort_prev, unlink, free_session, remove_session,
}
use java_spread_assignment.Session.Laws.Lookup.{set_at_self, set_at_ne}
use java_spread_assignment.Session.Laws.Sorted.{IsUnlinked, IsSortedList, IsUnlinked-IsSortedList}

sort_next-kept :
    (i x : ℕ) (o : Option ℕ) (t : Table)
    → ((change i (with_sort_prev o) t).sessions x).sort_next ≡ (t.sessions x).sort_next
sort_next-kept i x o t = elim (Bool-cases (x == i)) [
  | inl e ↦ rw e (ap (λ y. (t.sessions y).sort_next) (sym ((==_iff x i).0 e)))
  | inr e ↦ rw e refl
]

sort_prev-kept :
    (i x : ℕ) (o : Option ℕ) (t : Table)
    → ((change i (with_sort_next o) t).sessions x).sort_prev ≡ (t.sessions x).sort_prev
sort_prev-kept i x o t = elim (Bool-cases (x == i)) [
  | inl e ↦ rw e (ap (λ y. (t.sessions y).sort_prev) (sym ((==_iff x i).0 e)))
  | inr e ↦ rw e refl
]

sort_next-other :
    (i x : ℕ) (o : Option ℕ) (t : Table)
    → x ≢ i
    → ((change i (with_sort_next o) t).sessions x).sort_next ≡ (t.sessions x).sort_next
sort_next-other i x o t n =
    ap (λ (s : Session). s.sort_next) (set_at_ne i (with_sort_next o (t.sessions i)) t.sessions x n)

sort_prev-other :
    (i x : ℕ) (o : Option ℕ) (t : Table)
    → x ≢ i
    → ((change i (with_sort_prev o) t).sessions x).sort_prev ≡ (t.sessions x).sort_prev
sort_prev-other i x o t n =
    ap (λ (s : Session). s.sort_prev) (set_at_ne i (with_sort_prev o (t.sessions i)) t.sessions x n)

sort_next-set :
    (i x : ℕ) (o : Option ℕ) (t : Table)
    → some i ≡ some x
    → ((change i (with_sort_next o) t).sessions x).sort_next ≡ o
sort_next-set i x o t e =
    ap (λ y. ((change i (with_sort_next o) t).sessions y).sort_next) (sym (some-eq e))
    ∙ ap (λ (s : Session). s.sort_next) (set_at_self i (with_sort_next o (t.sessions i)) t.sessions)

sort_prev-set :
    (i x : ℕ) (o : Option ℕ) (t : Table)
    → some i ≡ some x
    → ((change i (with_sort_prev o) t).sessions x).sort_prev ≡ o
sort_prev-set i x o t e =
    ap (λ y. ((change i (with_sort_prev o) t).sessions y).sort_prev) (sym (some-eq e))
    ∙ ap (λ (s : Session). s.sort_prev) (set_at_self i (with_sort_prev o (t.sessions i)) t.sessions)

unlink-IsUnlinked : (t : Table) (i : ℕ) (pv nx : Option ℕ) → IsUnlinked t (unlink pv nx t) i pv nx
unfolding unlink
unlink-IsUnlinked t i none none = record {
  nexts = λ x n m. refl;
  prevs = λ x n m. refl;
  next = λ x n e. absurd cc;
  prev = λ x n e. absurd cc;
  head = λ e. refl;
  head_kept = λ x e. absurd cc;
  tail = λ e. refl;
  tail_kept = λ x e. absurd cc;
}
unlink-IsUnlinked t i none (some k) = record {
  nexts = λ x n m. sort_next-kept k x none t;
  prevs = λ x n m. sort_prev-other k x none t (λ e. m (ap some (sym e)));
  next = λ x n e. absurd cc;
  prev = λ x n e. sort_prev-set k x none t e;
  head = λ e. refl;
  head_kept = λ x e. absurd cc;
  tail = λ e. absurd cc;
  tail_kept = λ x e. refl;
}
unlink-IsUnlinked t i (some p) none = record {
  nexts = λ x n m. sort_next-other p x none t (λ e. m (ap some (sym e)));
  prevs = λ x n m. sort_prev-kept p x none t;
  next = λ x n e. sort_next-set p x none t e;
  prev = λ x n e. absurd cc;
  head = λ e. absurd cc;
  head_kept = λ x e. refl;
  tail = λ e. refl;
  tail_kept = λ x e. absurd cc;
}
unlink-IsUnlinked t i (some p) (some k) =
    let v = change k (with_sort_prev (some p)) t in
    record {
      nexts = λ x n m.
          sort_next-other p x (some k) v (λ e. m (ap some (sym e))) ∙ sort_next-kept k x (some p) t;
      prevs = λ x n m.
          sort_prev-kept p x (some k) v ∙ sort_prev-other k x (some p) t (λ e. m (ap some (sym e)));
      next = λ x n e. sort_next-set p x (some k) v e;
      prev = λ x n e. sort_prev-kept p x (some k) v ∙ sort_prev-set k x (some p) t e;
      head = λ e. absurd cc;
      head_kept = λ x e. refl;
      tail = λ e. absurd cc;
      tail_kept = λ x e. refl;
    }

-- The other sessions are those that unlinking leaves.
remove_session-other :
    (t : Table) (i x : ℕ)
    → x ≢ i
    → (remove_session i t).sessions x
      ≡ (unlink (t.sessions i).sort_prev (t.sessions i).sort_next t).sessions x
unfolding remove_session free_session
remove_session-other t i x n =
    let u = unlink (t.sessions i).sort_prev (t.sessions i).sort_next t in
    let cleared = λ (s : Session). record s { sort_prev = none; sort_next = none; mbox = no_id } in
    let v = change i cleared u in
    set_at_ne i (with_sort_next u.free (v.sessions i)) v.sessions x n
    ∙ set_at_ne i (cleared (u.sessions i)) u.sessions x n

remove_session-IsUnlinked :
    (t : Table) (i : ℕ)
    → IsUnlinked t (remove_session i t) i (t.sessions i).sort_prev (t.sessions i).sort_next
unfolding remove_session free_session
remove_session-IsUnlinked t i =
    let h = unlink-IsUnlinked t i (t.sessions i).sort_prev (t.sessions i).sort_next in
    record {
      nexts =
          λ x n m. ap (λ (s : Session). s.sort_next) (remove_session-other t i x n) ∙ h.nexts x n m;
      prevs =
          λ x n m. ap (λ (s : Session). s.sort_prev) (remove_session-other t i x n) ∙ h.prevs x n m;
      next =
          λ x n e. ap (λ (s : Session). s.sort_next) (remove_session-other t i x n) ∙ h.next x n e;
      prev =
          λ x n e. ap (λ (s : Session). s.sort_prev) (remove_session-other t i x n) ∙ h.prev x n e;
      head = h.head;
      head_kept = h.head_kept;
      tail = h.tail;
      tail_kept = h.tail_kept;
    }

-- `Sess_remove_session` takes a session out of the sorted list, whether it is the first, the last,
-- the only one or between two others: where the list is linked both ways and has no session twice,
-- the others are left in their order, linked both ways again, with the head and the tail, and the
-- session is the first of the free ones.
pub remove_session-IsSortedList :
    (t : Table) (i : ℕ) (xs ys : List ℕ)
    → IsSortedList t (xs ++ (i ∷ ys))
    → IsSortedList (remove_session i t) (xs ++ ys) × ((remove_session i t).free ≡ some i)
unfolding remove_session free_session
remove_session-IsSortedList t i xs ys h =
    (IsUnlinked-IsSortedList t (remove_session i t) i xs ys (remove_session-IsUnlinked t i) h, refl)
