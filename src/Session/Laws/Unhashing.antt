-- ===== src/Session/Laws/Unhashing.antt =====
-- `Sess_unhash_session` of daemon/session.c as a change of the map from sockets to sessions that
-- `Sess_get_session_index` reads.
use java_spread_assignment.Base.{
  ℕ, ◌≤◌, ◌≡◌, ◌≢◌, refl, sym, ◌∙◌, true, false, List, [], ◌∷◌, ◌++◌, none, some, arith, ◌==◌,
  length,
}
use java_spread_assignment.Base.Seqs.{last_or}
use java_spread_assignment.Session.{
  Table, change, with_hash_next, mbox_hash, get_session_index, unhash_session, unhash_from,
}
use java_spread_assignment.Session.Laws.Chains.{
  Chain, Chain-frame, Chain-splice, before_from-Chain, All-last,
}
use java_spread_assignment.Session.Laws.Distinct.{
  All-split, All-map, DistinctBy-middle, DistinctBy-front, DistinctBy-id, DistinctBy-count,
  DistinctBy-last, All-both,
}
use java_spread_assignment.Session.Laws.Mailboxes.{IsChain, IsHashed, get-find}
use java_spread_assignment.Session.Laws.Lookup.{
  find-split, set_at_self, next-change, next-change_self,
}
use java_spread_assignment.Session.Laws.Hashing.{update}
use java_spread_assignment.Session.Laws.Taking.{
  head_taken, later_taken, taken-update, head-IsFramed, later-IsFramed,
}

module _ (max_sessions : ℕ) where
  -- The first of a chain.
  unhash-head :
      (t : Table) (i : ℕ) (ys : List ℕ)
      → IsChain max_sessions t (mbox_hash (t.sessions i).mbox) (i ∷ ys)
      → (unhash_session max_sessions i t ≡ some (head_taken t (mbox_hash (t.sessions i).mbox) i))
        × Chain
            (head_taken t (mbox_hash (t.sessions i).mbox) i)
            ((head_taken t (mbox_hash (t.sessions i).mbox) i).hash_head
              (mbox_hash (t.sessions i).mbox))
            ys
  unfolding unhash_session unhash_from
  unhash-head t i ys c =
      let h = mbox_hash (t.sessions i).mbox in
      let u = head_taken t h i in
      let same : (i == i) ≡ true = ground arith in
      let apart = (DistinctBy-id (λ j. (t.sessions j).mbox) (i ∷ ys) c.unique).0 in
      (
        rw (c.linked.0, same) refl,
        rw (set_at_self h (t.sessions i).hash_next t.hash_head) (
            Chain-frame t u (t.sessions i).hash_next ys
              (All-map (λ j. j ≢ i) (λ j. (u.sessions j).hash_next ≡ (t.sessions j).hash_next)
                (λ j n. next-change i j none t n) ys apart)
              c.linked.1),
      )

  -- One behind the first.
  unhash-later :
      (t : Table) (i x : ℕ) (xs ys : List ℕ)
      → IsChain max_sessions t (mbox_hash (t.sessions i).mbox) (x ∷ (xs ++ (i ∷ ys)))
      → (unhash_session max_sessions i t ≡ some (later_taken t i (last_or xs x)))
        × Chain
            (later_taken t i (last_or xs x))
            (t.hash_head (mbox_hash (t.sessions i).mbox))
            (x ∷ (xs ++ ys))
  unfolding unhash_session unhash_from
  unhash-later t i x xs ys c =
      let h = mbox_hash (t.sessions i).mbox in
      let k = last_or xs x in
      let u = later_taken t i k in
      let next = (t.sessions i).hash_next in
      let v = change k (with_hash_next next) t in
      let d = DistinctBy-id (λ j. (t.sessions j).mbox) (x ∷ (xs ++ (i ∷ ys))) c.unique in
      let apart = DistinctBy-middle (λ j. j) (x ∷ xs) i ys d in
      let few : length (xs ++ (i ∷ ys)) ≤ max_sessions =
        omega (arith, DistinctBy-count max_sessions (x ∷ (xs ++ (i ∷ ys))) d c.inside) in
      let last_ne : k ≢ i = All-last (λ y. y ≢ i) x xs apart.0.0 apart.0.1 in
      let other : (x == i) ≡ false = ground (arith, apart.0.0) in
      let chain : Chain t (some x) (x ∷ (xs ++ (i ∷ ys))) = (refl, c.linked.1) in
      let walk = before_from-Chain max_sessions t i x xs ys chain apart.0.1 few in
      (
        rw (c.linked.0, other, walk) refl,
        rw c.linked.0 (
            Chain-splice t u i x xs ys chain (DistinctBy-front (λ j. j) (x ∷ xs) (i ∷ ys) d)
              (λ y n m. next-change i y none v m ∙ next-change k y next t n)
              (next-change i k none v last_ne ∙ next-change_self k next t) apart.0
              (All-both (λ y. y ≢ i) (λ y. y ≢ k)
                (λ y. (u.sessions y).hash_next ≡ (t.sessions y).hash_next)
                (λ y n m. next-change i y none v n ∙ next-change k y next t m) ys apart.1
                (DistinctBy-last x xs (i ∷ ys) d).1)),
      )

  abbrev Unhashed : Table → ℕ → Type 0
  Unhashed t i =
      (u : Table) × (unhash_session max_sessions i t ≡ some u)
      × ((chains' : ℕ → List ℕ) × IsHashed max_sessions u chains')
      × (get_session_index max_sessions u
          ≡ update (get_session_index max_sessions t) (t.sessions i).mbox none)

  unhash-split :
      (t : Table) (chains : ℕ → List ℕ) (i : ℕ) (xs ys : List ℕ)
      → IsHashed max_sessions t chains
      → chains (mbox_hash (t.sessions i).mbox) ≡ xs ++ (i ∷ ys)
      → IsChain max_sessions t (mbox_hash (t.sessions i).mbox) (xs ++ (i ∷ ys))
      → Unhashed t i
  unhash-split t chains i [] ys c split old =
      let r = unhash-head t i ys old in
      let h = mbox_hash (t.sessions i).mbox in
      let u = head_taken t h i in
      let v =
        taken-update max_sessions t u chains i [] ys c split (head-IsFramed max_sessions t i) r.1 in
      (u, r.0, v.0, v.1)
  unhash-split t chains i (x ∷ xs) ys c split old =
      let r = unhash-later t i x xs ys old in
      let h = mbox_hash (t.sessions i).mbox in
      let k = last_or xs x in
      let u = later_taken t i k in
      let hashed =
        All-split (λ j. mbox_hash (t.sessions j).mbox ≡ h) (x ∷ xs) (i ∷ ys) old.hashed in
      let same = All-last (λ j. mbox_hash (t.sessions j).mbox ≡ h) x xs hashed.0.0 hashed.0.1 in
      let v =
        taken-update max_sessions t u chains i (x ∷ xs) ys c split
          (later-IsFramed max_sessions t h i k refl same) r.1 in
      (u, r.0, v.0, v.1)

  -- `Sess_unhash_session` takes a session out: where the chains are well formed and the session is
  -- the one that its socket finds, it never follows NULL, the chains are well formed again, and the
  -- map from sockets to sessions is undefined at that socket and unchanged elsewhere.
  pub unhash_session-refines :
      (t : Table) (chains : ℕ → List ℕ) (i : ℕ)
      → IsHashed max_sessions t chains
      → get_session_index max_sessions t (t.sessions i).mbox ≡ some i
      → (u : Table) × (unhash_session max_sessions i t ≡ some u)
        × ((chains' : ℕ → List ℕ) × IsHashed max_sessions u chains')
        × (get_session_index max_sessions u
            ≡ update (get_session_index max_sessions t) (t.sessions i).mbox none)
  unhash_session-refines t chains i c known =
      let m = (t.sessions i).mbox in
      let h = mbox_hash m in
      let (xs, ys, split, own) =
        find-split t.sessions m i (chains h)
          (sym (get-find max_sessions t m (chains h) (c h)) ∙ known) in
      unhash-split t chains i xs ys c split (rw⁻¹ split (c h))
