-- ===== src/Membership/Rings.antt =====
-- What a form token says of the rings of daemon/membership.c: the entry of the daemon's ring, and sizes.
use java_spread_assignment.Base.{
  ℕ, zero, suc, ◌+◌, ◌-◌, ◌*◌, List, [], ◌∷◌, ◌==◌, if◌then◌else◌, length, take,
}
use java_spread_assignment.Memb.Reps.{RingInfo}
use java_spread_assignment.Prot.State.{PacketInfo, Prot, entry}

-- The sequence numbers of the empty slots among the `n` behind `i`.
unfoldable pub holes_from : ℕ → ℕ → (ℕ → PacketInfo) → List ℕ
holes_from zero i packets = []
holes_from (suc n) i packets =
    let rest = holes_from n (suc i) packets in
    if (packets (entry (suc i))).exist == 0 then suc i ∷ rest else rest

-- Without the daemon.
unfoldable pub without : ℕ → List ℕ → List ℕ
without id [] = []
without id (k ∷ ks) = let rest = without id ks in if k == id then rest else k ∷ rest

-- What the daemon says of its own ring, with the holes behind `from`.
unfoldable pub own_ring : ℕ → Prot → RingInfo
unfolding holes_from without
own_ring from s = record {
  memb_id = s.memb.membership_id;
  trans_time = 0;
  aru = s.aru;
  highest_seq = s.highest_seq;
  holes = holes_from (s.highest_seq - from) from s.packets;
  num_trans = 1;
  commit = s.my.id ∷ without s.my.id (take s.memb.commit_set.num_members s.memb.commit_set.members);
}

abbrev pub ring_info_size : ℕ
ring_info_size = 28

abbrev pub ring_bytes : RingInfo → ℕ
ring_bytes r = ring_info_size + (length r.holes + length r.commit) * 4

-- The number of rings, and the rings.
abbrev pub rings_bytes : List RingInfo → ℕ
rings_bytes [] = 4
rings_bytes (r ∷ rs) = ring_bytes r + rings_bytes rs
