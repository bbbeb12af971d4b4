-- ===== src/Session/Laws/Hashing.antt =====
-- `Sess_hash_session` of daemon/session.c as a change of the map from sockets to sessions that
-- `Sess_get_session_index` reads.
use java_spread_assignment.Base.{
  ℕ, ◌<◌, ◌≡◌, ◌≢◌, refl, sym, ap, ◌∙◌, List, ◌∷◌, Option, none, some, arith, ◌==◌, if◌then◌else◌,
}
use java_spread_assignment.Base.Seqs.{All}
use java_spread_assignment.Session.{Table, set_at, mbox_hash, get_session_index, hash_session}
use java_spread_assignment.Session.Laws.Chains.{Chain-frame}
use java_spread_assignment.Session.Laws.Distinct.{All-map, DistinctBy-ext}
use java_spread_assignment.Session.Laws.Mailboxes.{
  IsChain, IsHashed, IsFramed, get-find, IsHashed-frame, get_update,
}
use java_spread_assignment.Session.Laws.Lookup.{
  find-none, set_at_self, set_at_ne, mbox-change, next-change, next-change_self,
}

-- A function, changed at one socket.
abbrev pub update : (ℕ → Option ℕ) → ℕ → Option ℕ → ℕ → Option ℕ
update f m v q = if q == m then v else f q

module _ (max_sessions : ℕ) where
  hash-IsFramed :
      (t : Table) (i : ℕ)
      → IsFramed max_sessions t (hash_session i t) (mbox_hash (t.sessions i).mbox)
  unfolding hash_session
  hash-IsFramed t i =
      let first = t.hash_head (mbox_hash (t.sessions i).mbox) in
      record {
        mboxes = λ j. mbox-change i j first t;
        heads = λ k n. set_at_ne (mbox_hash (t.sessions i).mbox) (some i) t.hash_head k n;
        nexts = λ j n. next-change i j first t (λ e. n (ap (λ x. mbox_hash (t.sessions x).mbox) e));
      }

  hash-IsChain :
      (t : Table) (i : ℕ) (is : List ℕ)
      → IsChain max_sessions t (mbox_hash (t.sessions i).mbox) is
      → i < max_sessions
      → All (λ j. (t.sessions j).mbox ≢ (t.sessions i).mbox) is
      → IsChain max_sessions (hash_session i t) (mbox_hash (t.sessions i).mbox) (i ∷ is)
  unfolding hash_session
  hash-IsChain t i is c bound fresh =
      let h = mbox_hash (t.sessions i).mbox in
      let first = t.hash_head h in
      let u = hash_session i t in
      record {
        linked = (
          set_at_self h (some i) t.hash_head,
          Chain-frame t u (u.sessions i).hash_next is
              (All-map (λ j. (t.sessions j).mbox ≢ (t.sessions i).mbox)
                (λ j. (u.sessions j).hash_next ≡ (t.sessions j).hash_next)
                (λ j n. next-change i j first t (λ e. n (ap (λ x. (t.sessions x).mbox) e))) is
                fresh)
              (rw (next-change_self i first t) c.linked),
        );
        hashed =
            All-map (λ j. mbox_hash (t.sessions j).mbox ≡ h)
              (λ j. mbox_hash (u.sessions j).mbox ≡ h)
              (λ j e. ap mbox_hash (mbox-change i j first t) ∙ e) (i ∷ is) (refl, c.hashed);
        unique =
            DistinctBy-ext (λ j. (t.sessions j).mbox) (λ j. (u.sessions j).mbox)
              (λ j. mbox-change i j first t) (i ∷ is) (fresh, c.unique);
        inside = (bound, c.inside);
      }

  -- `Sess_hash_session` enters a session: where the chains are well formed, the session is one of
  -- the array and no session of its socket is known, the chains are so again, and the map from
  -- sockets to sessions is changed at that socket alone.
  pub hash_session-refines :
      (t : Table) (chains : ℕ → List ℕ) (i : ℕ)
      → IsHashed max_sessions t chains
      → i < max_sessions
      → get_session_index max_sessions t (t.sessions i).mbox ≡ none
      → ((chains' : ℕ → List ℕ) × IsHashed max_sessions (hash_session i t) chains')
        × (get_session_index max_sessions (hash_session i t)
            ≡ update (get_session_index max_sessions t) (t.sessions i).mbox (some i))
  hash_session-refines t chains i c bound none_yet =
      let m = (t.sessions i).mbox in
      let h = mbox_hash m in
      let fresh =
        find-none t.sessions m (chains h)
          (sym (get-find max_sessions t m (chains h) (c h)) ∙ none_yet) in
      let f = hash-IsFramed t i in
      let new = hash-IsChain t i (chains h) (c h) bound fresh in
      (
        (
          set_at h (i ∷ chains h) chains,
          IsHashed-frame max_sessions t (hash_session i t) h (i ∷ chains h) chains c f new,
        ),
        get_update max_sessions t (hash_session i t) h (i ∷ chains h) chains m (some i) c f new refl
            (ground arith) (λ q n. ground arith),
      )
