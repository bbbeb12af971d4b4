-- ===== src/Conf/Lookup.antt =====
-- What the searches of daemon/configuration.c find.
use java_spread_assignment.Base.{
  ℕ, suc, ◌+◌, ◌≡◌, ◌≢◌, ◌↔◌, inl, inr, refl, List, [], ◌∷◌, ◌++◌, Option, none, some, ◌==◌, arith,
  get_elem?, take, Option-cases, Bool-cases, ==_iff,
}
use java_spread_assignment.Base.Seqs.{All, All-append}
use java_spread_assignment.Conf.{
  Proc, Segment, Configuration, proc_by_id_from, proc_by_id_in_conf, id_in_procs_from, id_in_seg,
  id_in_segments_from, id_in_conf,
}
use java_spread_assignment.Conf.Ring.{members}

-- What a search for `id` over a list of processes promises of its result.
abbrev pub IsFirst : List Proc → ℕ → Option (ℕ × Proc) → Type 0
IsFirst ps id none = All (λ (p : Proc). p.id ≢ id) ps
IsFirst ps id (some (i, p)) =
    (get_elem? ps i ≡ some p) × (p.id ≡ id) × All (λ (q : Proc). q.id ≢ id) (take i ps)

-- The same, for a search that has passed `i` processes already.
abbrev IsFirstFrom : ℕ → List Proc → ℕ → Option (ℕ × Proc) → Type 0
IsFirstFrom i ps id none = All (λ (p : Proc). p.id ≢ id) ps
IsFirstFrom i ps id (some (k, p)) =
    (j : ℕ) × (k ≡ i + j)
    × (get_elem? ps j ≡ some p)
    × (p.id ≡ id)
    × All (λ (q : Proc). q.id ≢ id) (take j ps)

IsFirstFrom-cons :
    (i : ℕ) (p : Proc) (ps : List Proc) (id : ℕ) (r : Option (ℕ × Proc))
    → p.id ≢ id
    → IsFirstFrom (suc i) ps id r
    → IsFirstFrom i (p ∷ ps) id r
IsFirstFrom-cons i p ps id none ne h = (ne, h)
IsFirstFrom-cons i p ps id (some (k, q)) ne (j, e, g, m, a) = (suc j, omega arith, g, m, (ne, a))

proc_by_id_from-lem :
    (i : ℕ) (ps : List Proc) (id : ℕ) → IsFirstFrom i ps id (proc_by_id_from i ps id)
unfolding proc_by_id_from
proc_by_id_from-lem i [] id = tt
proc_by_id_from-lem i (p ∷ ps) id = elim (Bool-cases (p.id == id)) [
  | inl e ↦ rw e (0, omega arith, refl, (==_iff p.id id).0 e, tt)
  | inr n ↦ rw n (
      IsFirstFrom-cons i p ps id (proc_by_id_from (suc i) ps id) (ground arith)
        (proc_by_id_from-lem (suc i) ps id))
]

IsFirstFrom-zero :
    (ps : List Proc) (id : ℕ) (r : Option (ℕ × Proc)) → IsFirstFrom 0 ps id r → IsFirst ps id r
IsFirstFrom-zero ps id none h = h
IsFirstFrom-zero ps id (some (k, p)) (j, e, g, m, a) =
    let e' : k ≡ j = omega arith in rw e' (g, m, a)

-- `Conf_proc_by_id_in_conf` finds the first process of `allprocs` with the identifier, with its
-- index, and fails exactly when no process has it.
pub proc_by_id-IsFirst :
    (config : Configuration) (id : ℕ) → IsFirst config.allprocs id (proc_by_id_in_conf config id)
unfolding proc_by_id_in_conf
proc_by_id-IsFirst config id =
    IsFirstFrom-zero config.allprocs id _ (proc_by_id_from-lem 0 config.allprocs id)

id_in_procs-none :
    (j : ℕ) (ps : List Proc) (id : ℕ)
    → (id_in_procs_from j ps id ≡ none) ↔ All (λ (p : Proc). p.id ≢ id) ps
unfolding id_in_procs_from
id_in_procs-none j [] id = (λ _. tt, λ _. refl)
id_in_procs-none j (p ∷ ps) id = elim (Bool-cases (p.id == id)) [
  | inl e ↦ rw e (λ h. cc, λ a. absurd (a.0 ((==_iff p.id id).0 e)))
  | inr n ↦ rw n (
    λ h. (ground arith, (id_in_procs-none (suc j) ps id).0 h),
    λ a. (id_in_procs-none (suc j) ps id).1 a.1,
  )
]

All-split :
    (ps qs : List Proc) (id : ℕ)
    → All (λ (p : Proc). p.id ≢ id) (ps ++ qs)
    → All (λ (p : Proc). p.id ≢ id) ps × All (λ (p : Proc). p.id ≢ id) qs
All-split [] qs id a = (tt, a)
All-split (p ∷ ps) qs id a = let (x, y) = All-split ps qs id a.1 in ((a.0, x), y)

id_in_segments-none :
    (i : ℕ) (ss : List Segment) (id : ℕ)
    → (id_in_segments_from i ss id ≡ none) ↔ All (λ (p : Proc). p.id ≢ id) (members ss)
unfolding id_in_segments_from id_in_seg
id_in_segments-none i [] id = (λ _. tt, λ _. refl)
id_in_segments-none i (s ∷ ss) id = elim (Option-cases (id_in_procs_from 0 s.procs id)) [
  | inl absent ↦ rw absent (
    λ h.
        All-append (λ (p : Proc). p.id ≢ id) s.procs (members ss)
          ((id_in_procs-none 0 s.procs id).0 absent) ((id_in_segments-none (suc i) ss id).0 h),
    λ a. (id_in_segments-none (suc i) ss id).1 (All-split s.procs (members ss) id a).1,
  )
  | inr (j, found) ↦
      rw found (
        λ h. cc,
        λ a. cc ((id_in_procs-none 0 s.procs id).1 (All-split s.procs (members ss) id a).0),
      )
]

-- `Conf_id_in_conf` answers -1 exactly for the identifiers that no process of the ring has.
pub id_in_conf-none :
    (config : Configuration) (id : ℕ)
    → (id_in_conf config id ≡ none) ↔ All (λ (p : Proc). p.id ≢ id) (members config.segments)
unfolding id_in_conf
id_in_conf-none config id = id_in_segments-none 0 config.segments id
