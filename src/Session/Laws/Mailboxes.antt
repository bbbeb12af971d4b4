-- ===== src/Session/Laws/Mailboxes.antt =====
-- The table of daemon/session.c as a map from sockets to sessions.
use java_spread_assignment.Base.{
  ℕ, ◌<◌, ◌≡◌, ◌≢◌, inl, inr, refl, sym, ap, ◌∙◌, false, Bool-cases, List, [], ◌∷◌, Option, arith,
  ◌==◌, ==_iff, if◌then◌else◌,
}
use java_spread_assignment.Base.Seqs.{All}
use java_spread_assignment.Session.{Table, set_at, mbox_hash, get_session_index}
use java_spread_assignment.Session.Laws.Chains.{
  Chain, Chain-frame, DistinctBy, find_mbox, index_from-Chain,
}
use java_spread_assignment.Session.Laws.Distinct.{
  All-map, DistinctBy-ext, DistinctBy-id, DistinctBy-count,
}
use mathlib.Core.Path.{fun_ext}

module _ (max_sessions : ℕ) where
  -- The chain of a hash value holds sessions of that value whose sockets differ.
  pub record IsChain (t : Table) (h : ℕ) (is : List ℕ) : Type 0 where
    pub linked : Chain t (t.hash_head h) is
    pub hashed : All (λ i. mbox_hash (t.sessions i).mbox ≡ h) is
    pub unique : DistinctBy (λ i. (t.sessions i).mbox) is
    pub inside : All (λ i. i < max_sessions) is

  -- The chains hold exactly these lists.
  abbrev pub IsHashed : Table → (ℕ → List ℕ) → Type 0
  IsHashed t chains = (h : ℕ) → IsChain t h (chains h)

  -- The walk finds what the list of the socket's hash value has.
  pub get-find :
      (t : Table) (m : ℕ) (is : List ℕ)
      → IsChain t (mbox_hash m) is
      → get_session_index max_sessions t m ≡ find_mbox t.sessions m is
  unfolding get_session_index
  get-find t m is c = index_from-Chain max_sessions t m (t.hash_head (mbox_hash m)) is c.linked (
      DistinctBy-count max_sessions is (DistinctBy-id (λ i. (t.sessions i).mbox) is c.unique)
        c.inside)

  -- What a change of the chain of `h` leaves as it was.
  pub record IsFramed (t u : Table) (h : ℕ) : Type 0 where
    pub mboxes : (i : ℕ) → (u.sessions i).mbox ≡ (t.sessions i).mbox
    pub heads : (k : ℕ) → k ≢ h → u.hash_head k ≡ t.hash_head k
    pub nexts :
        (i : ℕ)
        → mbox_hash (t.sessions i).mbox ≢ h
        → (u.sessions i).hash_next ≡ (t.sessions i).hash_next

  IsChain-frame :
      (t u : Table) (h k : ℕ) (is : List ℕ)
      → IsFramed t u h
      → k ≢ h
      → IsChain t k is
      → IsChain u k is
  IsChain-frame t u h k is f n c = record {
    linked = rw (f.heads k n) (
        Chain-frame t u (t.hash_head k) is
          (All-map (λ i. mbox_hash (t.sessions i).mbox ≡ k)
            (λ i. (u.sessions i).hash_next ≡ (t.sessions i).hash_next)
            (λ i e. f.nexts i (λ e'. n (sym e ∙ e'))) is c.hashed)
          c.linked);
    hashed =
        All-map (λ i. mbox_hash (t.sessions i).mbox ≡ k) (λ i. mbox_hash (u.sessions i).mbox ≡ k)
          (λ i e. ap mbox_hash (f.mboxes i) ∙ e) is c.hashed;
    unique =
        DistinctBy-ext (λ i. (t.sessions i).mbox) (λ i. (u.sessions i).mbox) f.mboxes is c.unique;
    inside = c.inside;
  }

  find-frame :
      (t u : Table) (m : ℕ) (is : List ℕ)
      → ((i : ℕ) → (u.sessions i).mbox ≡ (t.sessions i).mbox)
      → find_mbox u.sessions m is ≡ find_mbox t.sessions m is
  find-frame t u m [] f = refl
  find-frame t u m (i ∷ is) f = rw (f i, find-frame t u m is f) refl

  -- The chains after such a change.
  pub IsHashed-frame :
      (t u : Table) (h : ℕ) (is : List ℕ) (chains : ℕ → List ℕ)
      → IsHashed t chains
      → IsFramed t u h
      → IsChain u h is
      → IsHashed u (set_at h is chains)
  IsHashed-frame t u h is chains c f new k = elim (Bool-cases (k == h)) [
    | inl e ↦ rw (e, (==_iff k h).0 e) new
    | inr e ↦ rw e (IsChain-frame t u h k (chains k) f (ground arith) (c k))
  ]

  -- A change of one chain is an update of the map, if it is one of what that chain has.
  pub get_update :
      (t u : Table) (h : ℕ) (is : List ℕ) (chains : ℕ → List ℕ) (m : ℕ) (v : Option ℕ)
      → IsHashed t chains
      → IsFramed t u h
      → IsChain u h is
      → mbox_hash m ≡ h
      → find_mbox t.sessions m is ≡ v
      → ((q : ℕ) → q ≢ m → find_mbox t.sessions q is ≡ find_mbox t.sessions q (chains h))
      → get_session_index max_sessions u
        ≡ (λ q. if q == m then v else get_session_index max_sessions t q)
  get_update t u h is chains m v c f new own here others = fun_ext λ q.
      elim (Bool-cases (mbox_hash q == h)) [
        | inl e ↦
            let at : (mbox_hash q ≡ h) = (==_iff (mbox_hash q) h).0 e in
            get-find u q is (rw at new)
            ∙ find-frame t u q is f.mboxes
            ∙ elim (Bool-cases (q == m)) [
              | inl k ↦ rw (k, (==_iff q m).0 k) here
              | inr k ↦ rw k (others q (ground arith) ∙ sym (get-find t q (chains h) (rw at (c h))))
            ]
        | inr e ↦
            let away : (mbox_hash q ≢ h) = λ x. ground arith in
            let k : ((q == m) ≡ false) = elim (Bool-cases (q == m)) [
              | inl x ↦ absurd (away (ap mbox_hash ((==_iff q m).0 x) ∙ own))
              | inr x ↦ x
            ] in
            rw k (
              get-find u q (chains (mbox_hash q))
                (IsChain-frame t u h (mbox_hash q) (chains (mbox_hash q)) f away (c (mbox_hash q)))
              ∙ find-frame t u q (chains (mbox_hash q)) f.mboxes
              ∙ sym (get-find t q (chains (mbox_hash q)) (c (mbox_hash q))))
      ]
