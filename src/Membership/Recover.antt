-- ===== src/Membership/Recover.antt =====
-- `Read_form2` of daemon/membership.c: what of the old ring is recovered when a new membership is formed.
use java_spread_assignment.Base.{
  ℕ, zero, suc, ◌+◌, ◌-◌, Bool, true, false, List, [], ◌∷◌, Option, none, some, ◌==◌, ltb, leb,
  ◌&&◌, ◌||◌, if◌then◌else◌,
}
use java_spread_assignment.Base.Seqs.{◌>>=◌}
use java_spread_assignment.Conf
use java_spread_assignment.Conf.{Proc, Segment, Configuration, seg_at}
use java_spread_assignment.Memb
use java_spread_assignment.Memb.{State, MembersInfo}
use java_spread_assignment.Memb.Reps.{RingInfo}
use java_spread_assignment.Prot.State.{PacketInfo, Prot, entry, set_exist}
use java_spread_assignment.Prot.Discard.{discard_packets}

abbrev pub is_unknown : Option (ℕ × Proc) → Bool
is_unknown none = true
is_unknown (some found) = false

-- The tests before a packet that came after the form1 token is forgotten: the packet is a new one of
-- the old membership, in its own slot, and its sender is not known to the new membership.
unfoldable pub may_forget : ℕ → Prot → Bool
may_forget i s =
    let p = s.packets (entry i) in
    (p.exist == 1)
    && (Memb.is_equal p.head.memb_id s.memb.membership_id
        && ((p.head.seq == i)
            && is_unknown (Conf.proc_by_id_in_conf s.memb.future_membership p.head.proc_id)))

-- The loop that counts `Highest_seq` down, `n` rounds from `low + n`.
unfoldable pub forget_late : ℕ → ℕ → Prot → Option Prot
unfolding may_forget
forget_late zero low s = some s
forget_late (suc n) low s =
    let i = low + suc n in
    let next = forget_late n low s in
    let forget = forget_late n low (set_exist (entry i) 0 s) in
    if (s.packets (entry i)).exist == 0 then next else if may_forget i s then forget else none

-- The holes of the token become dummies, which every daemon of the ring takes as received.
unfoldable pub fill_holes : List ℕ → Prot → Option Prot
unfolding may_forget
fill_holes [] s = some s
fill_holes (h ∷ hs) s =
    let next = fill_holes hs (set_exist (entry h) 3 s) in
    if (s.packets (entry h)).exist == 0 then next else if may_forget h s then next else none

-- The loop that recomputes `My_aru` in two ways, over `n` numbers behind `i`. A slot of another kind is
-- a fatal alarm.
unfoldable pub recount : ℕ → ℕ → (ℕ → PacketInfo) → ℕ → ℕ → Option (ℕ × ℕ)
recount zero i packets my_aru my_aru2 = some (my_aru, my_aru2)
recount (suc n) i packets my_aru my_aru2 =
    let x = (packets (entry (suc i))).exist in
    let here = recount n (suc i) packets (if i == my_aru then suc i else my_aru) my_aru2 in
    let hole = recount n (suc i) packets my_aru (if leb (suc i) my_aru2 then i else my_aru2) in
    if (x == 1) || (x == 2) then here else if (x == 0) || (x == 3) then hole else none

-- It is a fatal alarm if the two ways differ.
unfoldable pub recompute_my_aru : Prot → Option Prot
unfolding recount
recompute_my_aru s =
    recount (s.highest_seq - s.last_discarded) s.last_discarded s.packets s.last_discarded s.my_aru
    >>= λ r. if r.0 == r.1 then some (record s { my_aru = r.0 }) else none

-- The old ring as the token has it: later packets are forgotten, what every daemon of it has is
-- delivered, and the holes are filled.
unfoldable pub recover_ring : RingInfo → Prot → Option Prot
unfolding forget_late fill_holes recompute_my_aru
recover_ring r s = forget_late (s.highest_seq - r.highest_seq) r.highest_seq s >>= λ t.
    discard_packets (record t {
      my_aru = if ltb r.highest_seq t.my_aru then r.highest_seq else t.my_aru;
      highest_seq = r.highest_seq;
      aru = r.aru;
    })
    >>= λ u. fill_holes r.holes u >>= λ v. recompute_my_aru v
