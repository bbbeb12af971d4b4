-- ===== src/Network/Laws/Reach.antt =====
-- Whom a broadcast of daemon/network.c reaches after `Net_set_membership`.
use java_spread_assignment.Base.{
  ◌≤◌, ◌≡◌, sym, ap, ◌∙◌, List, [], ◌∷◌, ◌++◌, some, map, ◌==◌, if◌then◌else◌, length,
}
use java_spread_assignment.Base.Int.{ℤ}
use java_spread_assignment.Base.Seqs.{◌>>=◌, >>=-eq-some, some-eq}
use java_spread_assignment.Conf.{Proc, Segment, Configuration, num_segments}
use java_spread_assignment.Conf.Ring.{members, head_of}
use java_spread_assignment.Prot.State.{Packet}
use java_spread_assignment.Network.{
  Addressing, Network, Send, datagram, set_membership, max_addrs_segment,
}
use java_spread_assignment.Network.Sending.{stamp, routed, unrouted, net_bcast}
use java_spread_assignment.Network.Laws.Successor.{IsPlaced, heads, set_membership-lem}
use java_spread_assignment.Network.Laws.Routing.{net_bcast-sends}

module _ {Addr : Type 0} (a : Addressing Addr) (dl_sendto : Addr → Packet → ℤ) where
  -- What a daemon's broadcast sends.
  abbrev pub reach : Network Addr → List Proc → Packet → List (Send Addr)
  reach n targets p =
      let q = stamp n (routed p) in
      map (λ t. datagram t q) (map a.proc_addr targets)
      ++ (if n.bcast_needed then map (λ t. datagram t (unrouted q)) n.bcast_addrs else [])

  -- After a membership is set in which the daemon stands, a broadcast goes, marked as routed, to
  -- the first process of each other segment that has one, in the order of the segments, and then,
  -- unmarked, to the addresses of the daemon's own segment if `Bcast_needed` is set.
  pub net_bcast_reaches :
      (n m : Network Addr) (me : Proc) (memb : Configuration) (pre post : List Segment)
      (front back : List Proc) (p : Packet)
      → IsPlaced memb n.my me pre post front back
      → num_segments n.conf ≡ length memb.segments
      → 1 ≤ length n.bcast_addrs
      → length n.bcast_addrs ≤ max_addrs_segment
      → set_membership a memb n ≡ some m
      → (net_bcast dl_sendto m p >>= λ s. some s.sends) ≡ some (reach n (heads pre ++ heads post) p)
  unfolding stamp
  net_bcast_reaches n m me memb pre post front back p h all some_addr few e =
      let set = λ (q : Proc). record n {
        net_membership = memb;
        segment_leader = length front == 0;
        send_addrs = map a.proc_addr (heads pre ++ heads post);
        token_addr = a.next_port (a.proc_addr q);
      } in
      let (q, _, e') =
        >>=-eq-some (head_of (back ++ members post ++ members pre ++ front ++ (me ∷ [])))
          (λ q. some (set q))
          (sym (set_membership-lem a n me memb pre post front back h all) ∙ e) in
      ap (λ (x : Network Addr). net_bcast dl_sendto x p >>= λ s. some s.sends) (sym (some-eq e'))
      ∙ net_bcast-sends a dl_sendto (set q) p some_addr few
