-- ===== src/Session/Laws/Chains.antt =====
-- The chains of the hash table of daemon/session.c as lists of indices.
use java_spread_assignment.Base.{
  ℕ, zero, suc, ◌≤◌, ◌≡◌, ◌≢◌, refl, sym, ◌∙◌, true, false, List, [], ◌∷◌, ◌++◌, Option, none, some,
  arith, ◌==◌, if◌then◌else◌, length,
}
use java_spread_assignment.Base.Seqs.{All, last_or}
use java_spread_assignment.Session.{Session, Table, index_from, before_from}

-- Numbers with different values under `f`.
abbrev pub DistinctBy : (ℕ → ℕ) → List ℕ → Type 0
DistinctBy f [] = Unit
DistinctBy f (x ∷ xs) = All (λ y. f y ≢ f x) xs × DistinctBy f xs

-- The pointer `o` starts the chain of exactly these sessions, which ends with NULL.
abbrev pub Chain : Table → Option ℕ → List ℕ → Type 0
Chain t o [] = o ≡ none
Chain t o (i ∷ is) = (o ≡ some i) × Chain t (t.sessions i).hash_next is

-- The first session of a list with this socket.
abbrev pub find_mbox : (ℕ → Session) → ℕ → List ℕ → Option ℕ
find_mbox ses m [] = none
find_mbox ses m (i ∷ is) =
    let rest = find_mbox ses m is in if (ses i).mbox == m then some i else rest

-- A walk along a chain that is no longer than the steps allowed finds what the list has.
pub index_from-Chain :
    (n : ℕ) (t : Table) (m : ℕ) (o : Option ℕ) (is : List ℕ)
    → Chain t o is
    → length is ≤ n
    → index_from n t m o ≡ find_mbox t.sessions m is
unfolding index_from
index_from-Chain n t m o [] c h = rw c refl
index_from-Chain zero t m o (i ∷ is) c h = absurd (omega arith)
index_from-Chain (suc n) t m o (i ∷ is) c h =
    rw (c.0, index_from-Chain n t m (t.sessions i).hash_next is c.1 (omega arith)) refl

-- A chain depends on the `hash_next` of its sessions alone.
pub Chain-frame :
    (t u : Table) (o : Option ℕ) (is : List ℕ)
    → All (λ i. (u.sessions i).hash_next ≡ (t.sessions i).hash_next) is
    → Chain t o is
    → Chain u o is
Chain-frame t u o [] a c = c
Chain-frame t u o (i ∷ is) a c = (c.0, Chain-frame t u (u.sessions i).hash_next is a.1 (rw a.0 c.1))

-- What holds of each element holds of the last.
pub All-last : (P : ℕ → Type 0) (x : ℕ) (xs : List ℕ) → P x → All P xs → P (last_or xs x)
All-last P x [] h a = h
All-last P x (y ∷ ys) h a = All-last P y ys a.0 a.1

-- The walk to the session before `i`.
pub before_from-Chain :
    (n : ℕ) (t : Table) (i tmp : ℕ) (xs ys : List ℕ)
    → Chain t (some tmp) (tmp ∷ (xs ++ (i ∷ ys)))
    → All (λ x. x ≢ i) xs
    → length (xs ++ (i ∷ ys)) ≤ n
    → before_from n t i tmp ≡ some (last_or xs tmp)
unfolding before_from
before_from-Chain zero t i tmp [] ys c a h = absurd (omega arith)
before_from-Chain zero t i tmp (x ∷ xs) ys c a h = absurd (omega arith)
before_from-Chain (suc n) t i tmp [] ys c a h =
    let e : (i == i) ≡ true = ground arith in rw (c.1.0, e) refl
before_from-Chain (suc n) t i tmp (x ∷ xs) ys c a h =
    let e : (x == i) ≡ false = ground (arith, a.0) in
    rw (c.1.0, e) (before_from-Chain n t i x xs ys (refl, c.1.1) a.1 (omega arith))

-- A chain with one session taken out, where the pointer of the one before it was moved on.
pub Chain-splice :
    (t u : Table) (i tmp : ℕ) (xs ys : List ℕ)
    → Chain t (some tmp) (tmp ∷ (xs ++ (i ∷ ys)))
    → DistinctBy (λ x. x) (tmp ∷ xs)
    → ((x : ℕ) → x ≢ last_or xs tmp → x ≢ i → (u.sessions x).hash_next ≡ (t.sessions x).hash_next)
    → (u.sessions (last_or xs tmp)).hash_next ≡ (t.sessions i).hash_next
    → All (λ x. x ≢ i) (tmp ∷ xs)
    → All (λ y. (u.sessions y).hash_next ≡ (t.sessions y).hash_next) ys
    → Chain u (some tmp) (tmp ∷ (xs ++ ys))
Chain-splice t u i tmp [] ys c d f e a b =
    (refl, Chain-frame t u (u.sessions tmp).hash_next ys b (rw e c.1.1))
Chain-splice t u i tmp (x ∷ xs) ys c d f e a b =
    let moved : ((u.sessions tmp).hash_next ≡ some x) =
      f tmp (λ k. All-last (λ y. y ≢ tmp) x xs d.0.0 d.0.1 (sym k)) a.0 ∙ c.1.0 in
    (refl, rw moved (Chain-splice t u i x xs ys (refl, c.1.1) d.1 f e a.1 b))
