-- ===== src/Tests/SessionTests.antt =====
-- Witnesses for daemon/session.c: sockets 5 and 260 fall into the same chain, session 2 before
-- session 0; session 1 is yet to enter it with socket 1025.
use java_spread_assignment.Base.{
  ℕ, ◌≡◌, refl, false, Bool-cases, inl, inr, arith, List, [], ◌∷◌, Option, none, some, ◌==◌, ==_iff,
  if◌then◌else◌,
}
use java_spread_assignment.Session.{
  Session, Table, mbox_hash, get_session_index, hash_session, unhash_session, remove_session,
}
use java_spread_assignment.Session.Laws.Mailboxes.{IsChain, IsHashed}
use java_spread_assignment.Session.Laws.Hashing.{hash_session-refines, update}
use java_spread_assignment.Session.Laws.Sorted.{IsSortedList}
use java_spread_assignment.Session.Laws.Removal.{remove_session-IsSortedList}
use java_spread_assignment.Session.Laws.Unhashing.{unhash_session-refines}

abbrev entry_at : ℕ → Option ℕ → Session
entry_at mbox next = record { mbox = mbox; hash_next = next; sort_next = none; sort_prev = none }

abbrev entries : ℕ → Session
entries i =
    if i == 0 then entry_at 5 none else if i == 1 then entry_at 1025 none else entry_at 260 (some 0)

abbrev table : Table
table = record {
  sessions = entries;
  hash_head = λ h. if h == 5 then some 2 else none;
  head = none;
  tail = none;
  free = none;
}

abbrev chains : ℕ → List ℕ
chains h = if h == 5 then 2 ∷ 0 ∷ [] else []

five-IsChain : IsChain 3 table 5 (2 ∷ 0 ∷ [])
unfolding mbox_hash
five-IsChain = record {
  linked = (refl, (refl, refl));
  hashed = (refl, (refl, tt));
  unique = (((λ e. omega (arith, e)), tt), (tt, tt));
  inside = (omega arith, (omega arith, tt));
}

other-IsChain : (h : ℕ) → (h == 5) ≡ false → IsChain 3 table h []
other-IsChain h e = record { linked = rw e refl; hashed = tt; unique = tt; inside = tt }

table-IsHashed : IsHashed 3 table chains
table-IsHashed h = elim (Bool-cases (h == 5)) [
  | inl e ↦ rw (e, (==_iff h 5).0 e) five-IsChain
  | inr e ↦ rw e (other-IsChain h e)
]

hash_session-refines_example :
    ((chains' : ℕ → List ℕ) × IsHashed 3 (hash_session 1 table) chains')
    × (get_session_index 3 (hash_session 1 table)
        ≡ update (get_session_index 3 table) 1025 (some 1))
unfolding get_session_index
hash_session-refines_example =
    hash_session-refines 3 table chains 1 table-IsHashed (omega arith) refl

unhash_session-refines_example :
    (u : Table) × (unhash_session 3 0 table ≡ some u)
    × ((chains' : ℕ → List ℕ) × IsHashed 3 u chains')
    × (get_session_index 3 u ≡ update (get_session_index 3 table) 5 none)
unfolding get_session_index
unhash_session-refines_example = unhash_session-refines 3 table chains 0 table-IsHashed refl

-- Three sessions in the order 2, 0, 1.
abbrev sorted_table : Table
sorted_table = record table {
  sessions = λ i.
      if i == 0
      then record (entry_at 5 none) { sort_next = some 1; sort_prev = some 2 }
      else if i == 1
      then record (entry_at 1025 none) { sort_prev = some 0 }
      else record (entry_at 260 none) { sort_next = some 0 };
  head = some 2;
  tail = some 1;
}

remove_session-IsSortedList_example :
    IsSortedList (remove_session 0 sorted_table) (2 ∷ 1 ∷ [])
    × ((remove_session 0 sorted_table).free ≡ some 0)
remove_session-IsSortedList_example = remove_session-IsSortedList sorted_table 0 (2 ∷ []) (1 ∷ []) (
  (refl, refl, (refl, refl, (refl, refl, (refl, refl)))),
  (
    ((λ e. omega (arith, e)), ((λ e. omega (arith, e)), tt)),
    (((λ e. omega (arith, e)), tt), (tt, tt)),
  ),
)
