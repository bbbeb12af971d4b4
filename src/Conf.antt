-- ===== src/Conf.antt =====
-- daemon/configuration.c: the processes of a configuration, their segments, and the ring that the
-- segments make. A segment's `procs` are pointers into `allprocs` in the source; nothing writes
-- through them, so they are the processes here, and `num_procs` is the length of the list. Network
-- addresses are left out. An index of -1 is `none`; an identifier of -1 comes with a fatal alarm,
-- and is `none` too.
pub mod Lookup
pub mod Ring
use java_spread_assignment.Base.{
  ℕ, zero, suc, ◌+◌, ◌-◌, ◌≡◌, Bool, List, [], ◌∷◌, ◌++◌, Option, none, some, ◌==◌, if◌then◌else◌,
  length, get_elem?, set,
}
use java_spread_assignment.Base.Seqs.{◌>>=◌}
use mathlib.Core.List.{reverse}

pub record Proc : Type 0 where
  pub name : List ℕ
  pub id : ℕ
  pub seg_index : ℕ
  pub index_in_seg : ℕ

pub record Segment : Type 0 where
  pub procs : List Proc

pub record Configuration : Type 0 where
  pub hash_code : ℕ
  pub allprocs : List Proc
  pub segments : List Segment

abbrev pub empty_segment : Segment
empty_segment = record { procs = [] }

-- `strcmp` of two names, as lists of bytes.
unfoldable pub same_name : List ℕ → List ℕ → Bool
same_name [] [] = Bool.true
same_name [] (d ∷ ds) = Bool.false
same_name (c ∷ cs) [] = Bool.false
same_name (c ∷ cs) (d ∷ ds) = if c == d then same_name cs ds else Bool.false

-- The loops carry the index of the element in hand.
unfoldable pub proc_by_id_from : ℕ → List Proc → ℕ → Option (ℕ × Proc)
proc_by_id_from i [] id = none
proc_by_id_from i (p ∷ ps) id =
    let rest = proc_by_id_from (suc i) ps id in if p.id == id then some (i, p) else rest

unfoldable pub proc_ref_by_id_in_conf : Configuration → ℕ → Option (ℕ × Proc)
unfolding proc_by_id_from
proc_ref_by_id_in_conf config id = proc_by_id_from 0 config.allprocs id

unfoldable pub proc_by_id_in_conf : Configuration → ℕ → Option (ℕ × Proc)
unfolding proc_ref_by_id_in_conf
proc_by_id_in_conf config id = proc_ref_by_id_in_conf config id

unfoldable pub proc_by_name_from : ℕ → List Proc → List ℕ → Option (ℕ × Proc)
proc_by_name_from i [] name = none
proc_by_name_from i (p ∷ ps) name =
    let rest = proc_by_name_from (suc i) ps name in
    if same_name p.name name then some (i, p) else rest

unfoldable pub proc_ref_by_name_in_conf : Configuration → List ℕ → Option (ℕ × Proc)
unfolding proc_by_name_from
proc_ref_by_name_in_conf config name = proc_by_name_from 0 config.allprocs name

unfoldable pub id_in_procs_from : ℕ → List Proc → ℕ → Option ℕ
id_in_procs_from j [] id = none
id_in_procs_from j (p ∷ ps) id =
    let rest = id_in_procs_from (suc j) ps id in if p.id == id then some j else rest

unfoldable pub id_in_seg : Segment → ℕ → Option ℕ
unfolding id_in_procs_from
id_in_seg seg id = id_in_procs_from 0 seg.procs id

-- `config` is the daemon's own configuration, which the source reads from a global.
unfoldable pub append_id_to_seg : Configuration → Segment → ℕ → Option Segment
append_id_to_seg config seg id = proc_ref_by_id_in_conf config id >>= λ found.
    some (record { procs = seg.procs ++ (found.1 ∷ []) })

-- The index of this segment if the search in it succeeded, or else what the later ones give.
abbrev pub this_or : Option ℕ → ℕ → Option ℕ → Option ℕ
this_or (some j) i rest = some i
this_or none i rest = rest

unfoldable pub id_in_segments_from : ℕ → List Segment → ℕ → Option ℕ
id_in_segments_from i [] id = none
id_in_segments_from i (s ∷ ss) id = this_or (id_in_seg s id) i (id_in_segments_from (suc i) ss id)

unfoldable pub id_in_conf : Configuration → ℕ → Option ℕ
unfolding id_in_segments_from
id_in_conf config id = id_in_segments_from 0 config.segments id

unfoldable pub count_procs : ℕ → List Segment → ℕ
count_procs ret [] = ret
count_procs ret (s ∷ ss) = count_procs (ret + length s.procs) ss

unfoldable pub num_procs : Configuration → ℕ
unfolding count_procs
num_procs config = count_procs 0 config.segments

unfoldable pub num_segments : Configuration → ℕ
num_segments config = length config.segments

-- The first process of the first segment that is not empty.
abbrev pub first_or : List Proc → Option Proc → Option Proc
first_or [] rest = rest
first_or (p ∷ ps) rest = some p

unfoldable pub first_proc : List Segment → Option Proc
first_proc [] = none
first_proc (s ∷ ss) = first_or s.procs (first_proc ss)

unfoldable pub leader : Configuration → Option ℕ
unfolding first_proc
leader config = first_proc config.segments >>= λ p. some p.id

-- `procs[num_procs - 1]`, if there is one.
unfoldable pub last_in : List Proc → Option Proc
last_in ps = get_elem? ps (length ps - 1)

-- The loops that count `i` down read the segments from the end.
unfoldable pub last_in_or : List Proc → Option Proc → Option Proc
unfolding last_in
last_in_or [] rest = rest
last_in_or (p ∷ ps) rest = last_in (p ∷ ps)

unfoldable pub last_proc : List Segment → Option Proc
unfolding last_in_or
last_proc [] = none
last_proc (s ∷ ss) = last_in_or s.procs (last_proc ss)

unfoldable pub last : Configuration → Option ℕ
unfolding last_proc
last config = last_proc (reverse config.segments) >>= λ p. some p.id

abbrev pub seg_at : List Segment → ℕ → Segment
seg_at [] i = empty_segment
seg_at (s ∷ ss) zero = s
seg_at (s ∷ ss) (suc i) = seg_at ss i

abbrev pub take_segs : ℕ → List Segment → List Segment
take_segs zero ss = []
take_segs (suc n) [] = []
take_segs (suc n) (s ∷ ss) = s ∷ take_segs n ss

abbrev pub drop_segs : ℕ → List Segment → List Segment
drop_segs zero ss = ss
drop_segs (suc n) [] = []
drop_segs (suc n) (s ∷ ss) = drop_segs n ss

abbrev pub or_else : Option Proc → Option Proc → Option Proc
or_else (some p) rest = some p
or_else none rest = rest

-- The two loops over segments: below mine, then from the end down to mine.
unfoldable pub previous_in_segments : List Segment → ℕ → Option Proc
previous_in_segments ss seg =
    or_else (last_proc (reverse (take_segs seg ss))) (last_proc (reverse (drop_segs seg ss)))

-- An index of 0 or -1 goes on to the loops.
abbrev pub previous_from : List Proc → Option ℕ → Option Proc → Option Proc
previous_from mine (some (suc j)) rest = get_elem? mine j
previous_from mine _ rest = rest

-- `my` is the daemon's own process, which the source reads from a global.
unfoldable pub previous_proc : Proc → Configuration → Option Proc
unfolding previous_in_segments
previous_proc my config =
    let mine = (seg_at config.segments my.seg_index).procs in
    previous_from mine (id_in_procs_from 0 mine my.id)
      (previous_in_segments config.segments my.seg_index)

unfoldable pub previous : Proc → Configuration → Option ℕ
unfolding previous_proc
previous my config = previous_proc my config >>= λ p. some p.id

unfoldable pub seg_leader : Configuration → ℕ → Option ℕ
seg_leader config i = get_elem? (seg_at config.segments i).procs 0 >>= λ p. some p.id

unfoldable pub seg_last : Configuration → ℕ → Option ℕ
unfolding last_in
seg_last config i = last_in (seg_at config.segments i).procs >>= λ p. some p.id

unfoldable pub num_procs_in_seg : Configuration → ℕ → ℕ
num_procs_in_seg config i = length (seg_at config.segments i).procs
