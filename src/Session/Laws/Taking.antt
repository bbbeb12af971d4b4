-- ===== src/Session/Laws/Taking.antt =====
-- The table of daemon/session.c after a session is taken off its chain.
use java_spread_assignment.Base.{ℕ, ◌<◌, ◌≡◌, ◌≢◌, refl, sym, ap, ◌∙◌, List, ◌∷◌, ◌++◌, none}
use java_spread_assignment.Base.Seqs.{All-append}
use java_spread_assignment.Session.{
  Table, set_at, change, with_hash_next, mbox_hash, get_session_index,
}
use java_spread_assignment.Session.Laws.Chains.{Chain, find_mbox}
use java_spread_assignment.Session.Laws.Distinct.{
  All-split, All-map, DistinctBy-middle, DistinctBy-ext,
}
use java_spread_assignment.Session.Laws.Mailboxes.{
  IsChain, IsHashed, IsFramed, IsHashed-frame, get_update,
}
use java_spread_assignment.Session.Laws.Lookup.{
  find_none-All, find_other, set_at_ne, mbox-change, next-change,
}
use java_spread_assignment.Session.Laws.Hashing.{update}

-- What taking `i` off a chain makes of the table: the pointer to it, at the head of the chain or in
-- the session before it, is moved on.
abbrev pub head_taken : Table → ℕ → ℕ → Table
head_taken t h i = record (change i (with_hash_next none) t) {
  hash_head = set_at h (t.sessions i).hash_next t.hash_head;
}

abbrev pub later_taken : Table → ℕ → ℕ → Table
later_taken t i k =
    change i (with_hash_next none) (change k (with_hash_next (t.sessions i).hash_next) t)

module _ (max_sessions : ℕ) where
  -- A chain without one of its sessions.
  pub taken-IsChain :
      (t u : Table) (h i : ℕ) (xs ys : List ℕ)
      → IsChain max_sessions t h (xs ++ (i ∷ ys))
      → ((j : ℕ) → (u.sessions j).mbox ≡ (t.sessions j).mbox)
      → Chain u (u.hash_head h) (xs ++ ys)
      → IsChain max_sessions u h (xs ++ ys)
  taken-IsChain t u h i xs ys c f linked =
      let hashed = All-split (λ j. mbox_hash (t.sessions j).mbox ≡ h) xs (i ∷ ys) c.hashed in
      let inside = All-split (λ j. j < max_sessions) xs (i ∷ ys) c.inside in
      record {
        linked = linked;
        hashed =
            All-map (λ j. mbox_hash (t.sessions j).mbox ≡ h)
              (λ j. mbox_hash (u.sessions j).mbox ≡ h) (λ j e. ap mbox_hash (f j) ∙ e) (xs ++ ys)
              (All-append (λ j. mbox_hash (t.sessions j).mbox ≡ h) xs ys hashed.0 hashed.1.1);
        unique =
            DistinctBy-ext (λ j. (t.sessions j).mbox) (λ j. (u.sessions j).mbox) f (xs ++ ys)
              (DistinctBy-middle (λ j. (t.sessions j).mbox) xs i ys c.unique).2;
        inside = All-append (λ j. j < max_sessions) xs ys inside.0 inside.1.1;
      }

  pub head-IsFramed :
      (t : Table) (i : ℕ)
      → IsFramed max_sessions t
          (head_taken t (mbox_hash (t.sessions i).mbox) i)
          (mbox_hash (t.sessions i).mbox)
  head-IsFramed t i =
      let h = mbox_hash (t.sessions i).mbox in
      record {
        mboxes = λ j. mbox-change i j none t;
        heads = λ k n. set_at_ne h (t.sessions i).hash_next t.hash_head k n;
        nexts = λ j n. next-change i j none t (λ e. n (ap (λ x. mbox_hash (t.sessions x).mbox) e));
      }

  pub later-IsFramed :
      (t : Table) (h i k : ℕ)
      → mbox_hash (t.sessions i).mbox ≡ h
      → mbox_hash (t.sessions k).mbox ≡ h
      → IsFramed max_sessions t (later_taken t i k) h
  later-IsFramed t h i k hi hk =
      let next = (t.sessions i).hash_next in
      let v = change k (with_hash_next next) t in
      record {
        mboxes = λ j. mbox-change i j none v ∙ mbox-change k j next t;
        heads = λ l n. refl;
        nexts = λ j n.
            next-change i j none v (λ e. n (ap (λ x. mbox_hash (t.sessions x).mbox) e ∙ hi))
            ∙ next-change k j next t (λ e. n (ap (λ x. mbox_hash (t.sessions x).mbox) e ∙ hk));
      }

  -- What a session taken off leaves: the map is undefined at its socket, and as it was elsewhere.
  pub taken-update :
      (t u : Table) (chains : ℕ → List ℕ) (i : ℕ) (xs ys : List ℕ)
      → IsHashed max_sessions t chains
      → chains (mbox_hash (t.sessions i).mbox) ≡ xs ++ (i ∷ ys)
      → IsFramed max_sessions t u (mbox_hash (t.sessions i).mbox)
      → Chain u (u.hash_head (mbox_hash (t.sessions i).mbox)) (xs ++ ys)
      → ((chains' : ℕ → List ℕ) × IsHashed max_sessions u chains')
        × (get_session_index max_sessions u
            ≡ update (get_session_index max_sessions t) (t.sessions i).mbox none)
  taken-update t u chains i xs ys c split f linked =
      let m = (t.sessions i).mbox in
      let h = mbox_hash m in
      let old : IsChain max_sessions t h (xs ++ (i ∷ ys)) = rw⁻¹ split (c h) in
      let new = taken-IsChain t u h i xs ys old f.mboxes linked in
      let apart = DistinctBy-middle (λ j. (t.sessions j).mbox) xs i ys old.unique in
      (
        (set_at h (xs ++ ys) chains, IsHashed-frame max_sessions t u h (xs ++ ys) chains c f new),
        get_update max_sessions t u h (xs ++ ys) chains m none c f new refl
            (find_none-All t.sessions m (xs ++ ys)
              (All-append (λ j. (t.sessions j).mbox ≢ m) xs ys apart.0 apart.1))
            (λ q n.
              find_other t.sessions q i xs ys (λ e. n (sym e))
              ∙ ap (find_mbox t.sessions q) (sym split)),
      )
