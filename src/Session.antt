-- ===== src/Session.antt =====
-- The table of sessions in daemon/session.c: an array of records that are linked through three
-- pointers, into the chains of a hash table by the client's socket, into the sorted list of
-- sessions, and into the list of free records. A pointer into the array is an index, NULL is
-- `none`, and a step that follows NULL gives `none` as its result. `max_sessions` is `MAX_SESSIONS`, which
-- depends on a constant of a library; a walk along a chain takes at most as many steps. The fields of a session that the
-- table does not read are left out, and so is `close`.
pub mod Laws
use java_spread_assignment.Base.{
  ℕ, zero, suc, ◌+◌, ◌/◌, ◌%◌, Bool, Option, none, some, ◌==◌, if◌then◌else◌,
}
use java_spread_assignment.Base.Seqs.{◌>>=◌}
use java_spread_assignment.NetTypes.{no_id}
use Prim.Native.Nat.{bit_xor}

-- `mbox` is the bits of the int.
pub record Session : Type 0 where
  pub mbox : ℕ
  pub hash_next : Option ℕ
  pub sort_next : Option ℕ
  pub sort_prev : Option ℕ

-- `sessions`, and the static variables that point into it.
pub record Table : Type 0 where
  pub sessions : ℕ → Session
  pub hash_head : ℕ → Option ℕ
  pub head : Option ℕ
  pub tail : Option ℕ
  pub free : Option ℕ

abbrev pub set_at {ℓ} : {A : Type ℓ} → ℕ → A → (ℕ → A) → ℕ → A
set_at i x f j = if j == i then x else f j

-- The exclusive or of the four bytes, an index below 256.
unfoldable pub mbox_hash : ℕ → ℕ
mbox_hash m =
    bit_xor (bit_xor (bit_xor (m % 256) (m / 256 % 256)) (m / 65536 % 256)) (m / 16777216 % 256)

abbrev pub with_hash_next : Option ℕ → Session → Session
with_hash_next next s = record s { hash_next = next }

abbrev pub with_sort_next : Option ℕ → Session → Session
with_sort_next next s = record s { sort_next = next }

abbrev pub with_sort_prev : Option ℕ → Session → Session
with_sort_prev prev s = record s { sort_prev = prev }

-- The session at `i` changed.
abbrev pub change : ℕ → (Session → Session) → Table → Table
change i f t = record t { sessions = set_at i (f (t.sessions i)) t.sessions }

unfoldable pub free_session : ℕ → Table → Table
free_session i t = record (change i (with_sort_next t.free) t) { free = some i }

unfoldable pub free_sessions : ℕ → ℕ → Table → Table
unfolding free_session
free_sessions i zero t = t
free_sessions i (suc n) t = free_sessions (suc i) n (free_session i t)

module _ (max_sessions : ℕ) where
  unfoldable pub init_sessions : Table → Table
  unfolding free_sessions
  init_sessions t =
      free_sessions 0 max_sessions
        (record t { hash_head = λ _. none; free = none; head = none; tail = none })

unfoldable pub hash_session : ℕ → Table → Table
unfolding mbox_hash
hash_session i t =
    let h = mbox_hash (t.sessions i).mbox in
    record (change i (with_hash_next (t.hash_head h)) t) {
      hash_head = set_at h (some i) t.hash_head;
    }

-- The session whose `hash_next` is `i`, from `tmp` on.
unfoldable pub before_from : ℕ → Table → ℕ → ℕ → Option ℕ
before_from zero t i tmp = none
before_from (suc n) t i tmp = (t.sessions tmp).hash_next >>= λ next.
    (let rest = before_from n t i next in if next == i then some tmp else rest)

module _ (max_sessions : ℕ) where
  -- The first of a chain is taken off, or one behind `tmp`.
  unfoldable pub unhash_from : ℕ → ℕ → ℕ → Table → Option Table
  unfolding before_from
  unhash_from h i tmp t =
      if tmp == i
      then some (record (change i (with_hash_next none) t) {
        hash_head = set_at h (t.sessions i).hash_next t.hash_head;
      })
      else (before_from max_sessions t i tmp >>= λ k.
          some
            (change i (with_hash_next none) (change k (with_hash_next (t.sessions i).hash_next) t)))

  unfoldable pub unhash_session : ℕ → Table → Option Table
  unfolding unhash_from mbox_hash
  unhash_session i t =
      let h = mbox_hash (t.sessions i).mbox in t.hash_head h >>= λ tmp. unhash_from h i tmp t

unfoldable pub index_from : ℕ → Table → ℕ → Option ℕ → Option ℕ
index_from n t mbox none = none
index_from zero t mbox (some i) = none
index_from (suc n) t mbox (some i) =
    let rest = index_from n t mbox (t.sessions i).hash_next in
    if (t.sessions i).mbox == mbox then some i else rest

module _ (max_sessions : ℕ) where
  unfoldable pub get_session_index : Table → ℕ → Option ℕ
  unfolding index_from mbox_hash
  get_session_index t mbox = index_from max_sessions t mbox (t.hash_head (mbox_hash mbox))

-- The alarm on an empty list of free records returns, and then NULL is followed.
unfoldable pub get_free_session : Table → Option (ℕ × Table)
get_free_session t = t.free >>= λ i. some (i, record t { free = (t.sessions i).sort_next })

unfoldable pub insert_last : ℕ → Option ℕ → Table → Table
insert_last i none t = record (change i (with_sort_prev none) t) { head = some i; tail = some i }
insert_last i (some last) t =
    record (change last (with_sort_next (some i)) (change i (with_sort_prev (some last)) t)) {
      tail = some i;
    }

unfoldable pub link_before : ℕ → Option ℕ → Table → Table
link_before i none t = record t { head = some i }
link_before i (some p) t = change p (with_sort_next (some i)) t

unfoldable pub insert_at : ℕ → Option ℕ → Table → Table
unfolding insert_last link_before
insert_at i none t = insert_last i t.tail (change i (with_sort_next none) t)
insert_at i (some place) t =
    let prev = (t.sessions place).sort_prev in
    link_before i prev (
      change place (with_sort_prev (some i))
        (change i (with_sort_prev prev) (change i (with_sort_next (some place)) t)))

-- Before the session at `place`, or at the end.
unfoldable pub insert_new_session : Option ℕ → Session → Table → Option (ℕ × Table)
unfolding get_free_session insert_at
insert_new_session place template t =
    get_free_session t >>= λ (i, u). some (i, insert_at i place (change i (λ _. template) u))

unfoldable pub unlink : Option ℕ → Option ℕ → Table → Table
unlink none none t = record t { head = none; tail = none }
unlink none (some n) t = record (change n (with_sort_prev none) t) { head = some n }
unlink (some p) none t = record (change p (with_sort_next none) t) { tail = some p }
unlink (some p) (some n) t =
    change p (with_sort_next (some n)) (change n (with_sort_prev (some p)) t)

unfoldable pub remove_session : ℕ → Table → Table
unfolding unlink free_session
remove_session i t =
    let u = unlink (t.sessions i).sort_prev (t.sessions i).sort_next t in
    free_session i (change i (λ s. record s { sort_prev = none; sort_next = none; mbox = no_id }) u)
