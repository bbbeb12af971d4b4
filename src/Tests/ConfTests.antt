-- ===== src/Tests/ConfTests.antt =====
-- The configuration, flow control and word theorems at concrete inputs.
use java_spread_assignment.Base.{◌≡◌, ◌↔◌, refl, ◌≢◌, [], ◌∷◌, none, some, arith, ◌≤◌, ◌⊎◌, ◌+◌}
use java_spread_assignment.Base.Int.{pos, ◌≤ℤ◌, ◌+ℤ◌}
use java_spread_assignment.Base.Seqs.{All, ◌>>=◌}
use java_spread_assignment.NetTypes.{
  get_arq, set_arq, get_retrans, set_retrans, is_form, same_endian,
}
use java_spread_assignment.NetTypes.Bits.{arq_fields}
use java_spread_assignment.Conf.{
  Proc, id_in_conf, proc_by_id_in_conf, previous_proc, num_procs, leader, last,
}
use java_spread_assignment.Conf.Ring.{
  members, head_of, last_of, leader-last_num, previous_is_predecessor,
}
use java_spread_assignment.Conf.Lookup.{IsFirst, proc_by_id-IsFirst, id_in_conf-none}
use java_spread_assignment.Memb.{State}
use java_spread_assignment.Flow.{allowed, max_seq_gap}
use java_spread_assignment.Flow.Bounds.{allowed_bounds}
use java_spread_assignment.Tests.Samples.{first_proc, my_proc, last_proc, conf, state}

arq_fields_example :
    (get_arq (set_arq 0x230040 5) ≡ 5)
    × (get_retrans (set_arq 0x230040 5) ≡ get_retrans 0x230040)
    × (get_retrans (set_retrans 0x230040 5) ≡ 5)
    × (get_arq (set_retrans 0x230040 5) ≡ get_arq 0x230040)
    × (is_form (set_arq 0x230040 5) ≡ is_form 0x230040)
    × (same_endian (set_retrans 0x230040 5) ≡ same_endian 0x230040)
arq_fields_example = arq_fields 0x230040 5

previous_is_predecessor_example : previous_proc my_proc conf ≡ some first_proc
previous_is_predecessor_example =
    previous_is_predecessor my_proc my_proc conf [] (record { procs = last_proc ∷ [] } ∷ [])
      (first_proc ∷ []) [] refl refl ((λ e. omega arith), tt) refl

leader-last_num_example :
    (num_procs conf ≡ 3)
    × (leader conf ≡ (head_of (members conf.segments) >>= λ p. some p.id))
    × (last conf ≡ (last_of (members conf.segments) >>= λ p. some p.id))
leader-last_num_example = leader-last_num conf

proc_by_id-IsFirst_example : IsFirst conf.allprocs 3 (proc_by_id_in_conf conf 3)
proc_by_id-IsFirst_example = proc_by_id-IsFirst conf 3

id_in_conf-none_example :
    (id_in_conf conf 9 ≡ none) ↔ All (λ (p : Proc). p.id ≢ 9) (members conf.segments)
id_in_conf-none_example = id_in_conf-none conf 9

allowed_bounds_example :
    let a = allowed state.flow State.op 4 2 (pos 5) in
    (pos 0 ≤ℤ a)
    × (a ≤ℤ pos 20)
    × (a ≤ℤ pos 10)
    × ((a ≡ pos 0)
        ⊎ ((pos 5 +ℤ a ≤ℤ pos 20 +ℤ pos 10) × (State.op ≢ State.evs) × (4 ≤ 2 + max_seq_gap)))
allowed_bounds_example = allowed_bounds state.flow State.op 4 2 (pos 5) (omega arith) (omega arith)
