-- ===== src/Session/Laws/Lookup.antt =====
-- What the lists of daemon/session.c have for a socket, and what a moved pointer leaves.
use java_spread_assignment.Base.{
  ℕ, ◌≡◌, ◌≢◌, inl, inr, refl, sym, ap, ◌∙◌, true, false, Bool-cases, List, [], ◌∷◌, ◌++◌, Option,
  none, some, arith, ◌==◌, ==_iff,
}
use java_spread_assignment.Base.Seqs.{if_cases, some-eq, All}
use java_spread_assignment.Session.{Session, Table, set_at, change, with_hash_next}
use java_spread_assignment.Session.Laws.Chains.{find_mbox}

pub find-none :
    (ses : ℕ → Session) (m : ℕ) (is : List ℕ)
    → find_mbox ses m is ≡ none
    → All (λ i. (ses i).mbox ≢ m) is
find-none ses m [] e = tt
find-none ses m (i ∷ is) e =
    if_cases ((ses i).mbox == m) (some i) (find_mbox ses m is) none (λ k x. absurd cc)
      (λ k x. ((λ y. ground arith), find-none ses m is x)) e

-- A session that is found splits the list.
pub find-split :
    (ses : ℕ → Session) (m i : ℕ) (is : List ℕ)
    → find_mbox ses m is ≡ some i
    → (xs : List ℕ) × (ys : List ℕ) × (is ≡ xs ++ (i ∷ ys)) × ((ses i).mbox ≡ m)
find-split ses m i [] e = cc
find-split ses m i (j ∷ is) e =
    if_cases ((ses j).mbox == m) (some j) (find_mbox ses m is) (some i)
      (λ k x.
        let at : j ≡ i = some-eq x in
        (
          [],
          is,
          ap (λ z. z ∷ is) at,
          ap (λ z. (ses z).mbox) (sym at) ∙ (==_iff (ses j).mbox m).0 k,
        ))
      (λ k x.
        let (xs, ys, split, own) = find-split ses m i is x in
        (j ∷ xs, ys, ap (λ l. j ∷ l) split, own))
      e

pub set_at_self {ℓ} : {A : Type ℓ} (i : ℕ) (x : A) (f : ℕ → A) → set_at i x f i ≡ x
set_at_self i x f = let e : (i == i) ≡ true = ground arith in rw e refl

pub set_at_ne {ℓ} : {A : Type ℓ} (i : ℕ) (x : A) (f : ℕ → A) (j : ℕ) → j ≢ i → set_at i x f j ≡ f j
set_at_ne i x f j n = let e : (j == i) ≡ false = ground arith in rw e refl

-- Moving a `hash_next` leaves the sockets.
pub mbox-change :
    (i j : ℕ) (o : Option ℕ) (t : Table)
    → ((change i (with_hash_next o) t).sessions j).mbox ≡ (t.sessions j).mbox
mbox-change i j o t = elim (Bool-cases (j == i)) [
  | inl e ↦ rw e (ap (λ x. (t.sessions x).mbox) (sym ((==_iff j i).0 e)))
  | inr e ↦ rw e refl
]

pub next-change :
    (i j : ℕ) (o : Option ℕ) (t : Table)
    → j ≢ i
    → ((change i (with_hash_next o) t).sessions j).hash_next ≡ (t.sessions j).hash_next
next-change i j o t n =
    ap (λ (s : Session). s.hash_next) (set_at_ne i (with_hash_next o (t.sessions i)) t.sessions j n)

pub next-change_self :
    (i : ℕ) (o : Option ℕ) (t : Table) → ((change i (with_hash_next o) t).sessions i).hash_next ≡ o
next-change_self i o t =
    ap (λ (s : Session). s.hash_next) (set_at_self i (with_hash_next o (t.sessions i)) t.sessions)

-- Nothing is found where every socket differs.
pub find_none-All :
    (ses : ℕ → Session) (m : ℕ) (is : List ℕ)
    → All (λ i. (ses i).mbox ≢ m) is
    → find_mbox ses m is ≡ none
find_none-All ses m [] a = refl
find_none-All ses m (i ∷ is) a =
    let e : ((ses i).mbox == m) ≡ false = ground (arith, a.0) in
    rw (e, find_none-All ses m is a.1) refl

-- Another socket is found without the session as well.
pub find_other :
    (ses : ℕ → Session) (q i : ℕ) (xs ys : List ℕ)
    → (ses i).mbox ≢ q
    → find_mbox ses q (xs ++ ys) ≡ find_mbox ses q (xs ++ (i ∷ ys))
find_other ses q i [] ys n = let e : ((ses i).mbox == q) ≡ false = ground arith in rw e refl
find_other ses q i (x ∷ xs) ys n = rw (find_other ses q i xs ys n) refl
