-- ===== src/Tests/NetTests.antt =====
-- Witnesses for daemon/network.c: the ring of three daemons of the samples, whose addresses are
-- numbers, and a second daemon in the last segment.
use java_spread_assignment.Base.{
  ℕ, ◌+◌, ◌*◌, ◌≡◌, ◌⊎◌, refl, inl, true, false, arith, [], ◌∷◌, some, ◌==◌, length,
}
use java_spread_assignment.Base.Int.{ℤ, pos}
use java_spread_assignment.Base.Seqs.{◌>>=◌}
use java_spread_assignment.NetTypes.{is_control, is_routed, clear_routed, same_endian}
use java_spread_assignment.Conf.{
  Proc, Configuration, num_segments, previous_proc, id_in_seg, proc_ref_by_id_in_conf,
  proc_by_id_in_conf,
}
use java_spread_assignment.Prot.State.{Packet}
use java_spread_assignment.Network.{
  Addressing, Network, set_membership, datagram, targets_from, visit, token_target,
}
use java_spread_assignment.Network.Sending.{net_bcast, stamp, routed}
use java_spread_assignment.Network.Receiving.{
  net_recv, whole, nothing, is_genuine, in_my_component, in_my_order,
}
use java_spread_assignment.Network.Laws.Successor.{IsPlaced}
use java_spread_assignment.Network.Laws.TokenRing.{token_comes_from_previous}
use java_spread_assignment.Network.Laws.Routing.{Hears, routed_once}
use java_spread_assignment.Network.Laws.Admission.{taken-Hears}
use java_spread_assignment.Network.Laws.Order.{in_my_order_lem}
use java_spread_assignment.Network.Laws.Reach.{net_bcast_reaches, reach}
use java_spread_assignment.Tests.Samples.{first_proc, my_proc, last_proc, header}

abbrev addresses : Addressing ℕ
addresses = record {
  proc_addr = λ p. p.id * 10;
  seg_addrs = λ i. (100 + i) ∷ [];
  next_port = λ n. n + 1;
  same_ip = λ x y. x == y;
}

abbrev fourth_proc : Proc
fourth_proc = record { name = 100 ∷ []; id = 4; seg_index = 1; index_in_seg = 1 }

abbrev four : Configuration
four = record {
  hash_code = 7;
  allprocs = first_proc ∷ my_proc ∷ last_proc ∷ fourth_proc ∷ [];
  segments =
      record { procs = first_proc ∷ my_proc ∷ [] }
      ∷ record { procs = last_proc ∷ fourth_proc ∷ [] }
      ∷ [];
}

abbrev daemon : Proc → Network ℕ
daemon p = record {
  my = p;
  conf = four;
  net_membership = four;
  segment_leader = p.index_in_seg == 0;
  send_addrs = [];
  token_addr = 0;
  bcast_needed = true;
  bcast_addrs = (100 + p.seg_index) ∷ [];
  partition = λ _. pos 0;
  partition_my_index = 0;
  dangerous_monitor = false;
  in_reload_singleton = false;
}

abbrev after_set : ℕ → Network ℕ
after_set target = record (daemon my_proc) {
  segment_leader = false;
  send_addrs = 30 ∷ [];
  token_addr = target;
}

abbrev sent_all : ℕ → Packet → ℤ
sent_all to p = pos 1

abbrev packet : Packet
packet = record { head = header 8 1; body = 7 ∷ 8 ∷ [] }

my_place :
    IsPlaced four my_proc my_proc []
      (record { procs = last_proc ∷ fourth_proc ∷ [] } ∷ [])
      (first_proc ∷ [])
      []
my_place = record { shape = refl; here = refl; others = (λ e. omega (arith, e), tt); mine = refl }

last_place :
    IsPlaced four last_proc last_proc
      (record { procs = first_proc ∷ my_proc ∷ [] } ∷ [])
      []
      []
      (fourth_proc ∷ [])
last_place = record { shape = refl; here = refl; others = tt; mine = refl }

token_comes_from_previous_example :
    (m : Network ℕ) × (set_membership addresses four (daemon my_proc) ≡ some m)
    × (m.token_addr ≡ 31)
    × (previous_proc last_proc four ≡ some my_proc)
unfolding num_segments
token_comes_from_previous_example =
    token_comes_from_previous addresses (daemon my_proc) my_proc last_proc four []
      (record { procs = last_proc ∷ fourth_proc ∷ [] } ∷ [])
      (record { procs = first_proc ∷ my_proc ∷ [] } ∷ []) [] (first_proc ∷ []) [] []
      (fourth_proc ∷ []) my_place last_place refl (inl refl)

second-Hears : Hears addresses (daemon last_proc) 20 7 2
unfolding is_genuine in_my_component proc_ref_by_id_in_conf proc_by_id_in_conf
second-Hears = record { genuine = refl; other = refl; component = refl }

fourth-Hears : Hears addresses (daemon fourth_proc) 30 7 3
unfolding is_genuine in_my_component proc_ref_by_id_in_conf proc_by_id_in_conf
fourth-Hears = record { genuine = refl; other = refl; component = refl }

control : is_control 8 ≡ false
unfolding is_control
control = refl

routed_once_example :
    (u : Packet) × (net_recv addresses sent_all
        (daemon last_proc)
        20
        (whole (stamp (daemon my_proc) (routed packet)))
      ≡ some (record (nothing (daemon last_proc)) { taken = some u; sends = datagram 101 u ∷ [] }))
    × (net_recv addresses sent_all (daemon fourth_proc) 30 (whole u)
        ≡ some (record (nothing (daemon fourth_proc)) { taken = some u }))
    × (u.body ≡ packet.body)
    × (u.head.seq ≡ packet.head.seq)
routed_once_example =
    routed_once addresses sent_all (daemon my_proc) (daemon last_proc) (daemon fourth_proc) 20 30
      packet refl control second-Hears refl (omega arith) (omega arith) fourth-Hears

abbrev arrives : Packet
arrives = record packet {
  head = record packet.head { type = 0x80000088; conf_hash = 7; transmiter_id = 2 };
}

taken-Hears_example :
    (length arrives.body ≡ arrives.head.data_len)
    × (is_genuine addresses (daemon last_proc) 20 7 2 ≡ true)
    × ((is_control 0x80000088 ≡ true) ⊎ Hears addresses (daemon last_proc) 20 7 2)
unfolding net_recv in_my_order same_endian proc_ref_by_id_in_conf is_control proc_by_id_in_conf
    is_routed clear_routed
taken-Hears_example =
    taken-Hears addresses sent_all (daemon last_proc) 20 arrives arrives
      (record (nothing (daemon last_proc)) { taken = some arrives }) refl refl

net_bcast_reaches_example :
    (net_bcast sent_all (after_set 31) packet >>= λ s. some s.sends)
    ≡ some (reach addresses sent_all (daemon my_proc) (last_proc ∷ []) packet)
unfolding set_membership num_segments id_in_seg targets_from visit token_target
net_bcast_reaches_example =
    net_bcast_reaches addresses sent_all (daemon my_proc) (after_set 31) my_proc four []
      (record { procs = last_proc ∷ fourth_proc ∷ [] } ∷ []) (first_proc ∷ []) [] packet my_place
      refl (omega arith) (omega arith) refl

in_my_order_lem_example :
    in_my_order (in_my_order (record packet { head = record packet.head { type = 0x08000000 } }))
    ≡ record packet { head = record packet.head { type = 0x08000000 } }
in_my_order_lem_example =
    in_my_order_lem (record packet { head = record packet.head { type = 0x08000000 } })
      (record {
        type = omega arith;
        transmiter_id = omega arith;
        proc_id = omega arith;
        memb_proc_id = omega arith;
        memb_time = omega arith;
        seq = omega arith;
        token_round = omega arith;
        conf_hash = omega arith;
        data_len = omega arith;
      })
