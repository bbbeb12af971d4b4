-- ===== src/Network/Laws/Admission.antt =====
-- Which packets `Net_recv` of daemon/network.c hands up.
use java_spread_assignment.Base.{
  ◌≡◌, ◌⊎◌, inl, inr, Bool, true, false, not, ◌||◌, refl, some, ◌==◌, ==_iff, if◌then◌else◌,
  Bool-cases, length,
}
use java_spread_assignment.Base.Int.{ℤ}
use java_spread_assignment.Base.Seqs.{if_cases}
use java_spread_assignment.NetTypes.{is_control}
use java_spread_assignment.Prot.State.{Packet}
use java_spread_assignment.Network.{Addressing, Network}
use java_spread_assignment.Network.Receiving.{
  Received, nothing, whole, is_genuine, in_my_component, in_my_order, recv_packet, net_recv,
  handle_monitor, hand_up,
}
use java_spread_assignment.Network.Laws.Routing.{Hears}

or-false : (b c : Bool) → (b || not c) ≡ false → (b ≡ false) × (c ≡ true)
or-false false true h = (refl, refl)
or-false false false h = cc
or-false true c h = cc

not-false : (b : Bool) → not b ≡ false → b ≡ true
not-false true h = refl
not-false false h = cc

if_false : {A : Type 0} (b : Bool) (x y o : A) → b ≡ false → (if b then x else y) ≡ o → y ≡ o
if_false b x y o e h = if_cases b x y o (λ c k. absurd (cc)) (λ c k. k) h

nothing-taken :
    {Addr : Type 0} {P : Type 0} (n : Network Addr) (r : Received Addr) (u : Packet)
    → some (nothing n) ≡ some r
    → r.taken ≡ some u
    → P
nothing-taken n r u e h = cc

module _ {Addr : Type 0} (a : Addressing Addr) (dl_sendto : Addr → Packet → ℤ) where
  taken-Hears_data :
      (n : Network Addr) (src : Addr) (q u : Packet) (r : Received Addr)
      → is_genuine a n src q.head.conf_hash q.head.transmiter_id ≡ true
      → (if (q.head.transmiter_id == n.my.id) || not (in_my_component n q.head.transmiter_id)
          then some (nothing n)
          else hand_up a dl_sendto n q)
        ≡ some r
      → r.taken ≡ some u
      → Hears a n src q.head.conf_hash q.head.transmiter_id
  taken-Hears_data n src q u r genuine h t =
      if_cases ((q.head.transmiter_id == n.my.id) || not (in_my_component n q.head.transmiter_id))
        (some (nothing n)) (hand_up a dl_sendto n q) (some r) (λ c e. nothing-taken n r u e t)
        (λ c e.
          let known =
            or-false (q.head.transmiter_id == n.my.id) (in_my_component n q.head.transmiter_id) c in
          record { genuine = genuine; other = known.0; component = known.1 })
        h

  -- A packet that is handed up has the length that its header says, carries the daemon's hash code
  -- and comes from the address of the process it names; if it is no control packet, then that
  -- process is another daemon, of the same component.
  pub taken-Hears :
      (n : Network Addr) (src : Addr) (p u : Packet) (r : Received Addr)
      → net_recv a dl_sendto n src (whole p) ≡ some r
      → r.taken ≡ some u
      → let q = in_my_order p in
        (length q.body ≡ q.head.data_len)
        × (is_genuine a n src q.head.conf_hash q.head.transmiter_id ≡ true)
        × ((is_control q.head.type ≡ true) ⊎ Hears a n src q.head.conf_hash q.head.transmiter_id)
  unfolding net_recv recv_packet
  taken-Hears n src p u r h t =
      let q = in_my_order p in
      let hash = q.head.conf_hash in
      let id = q.head.transmiter_id in
      if_cases (not (length q.body == q.head.data_len) || not (is_genuine a n src hash id))
        (some (nothing n))
        (if is_control q.head.type
          then handle_monitor n q
          else if (id == n.my.id) || not (in_my_component n id)
          then some (nothing n)
          else hand_up a dl_sendto n q)
        (some r) (λ c e. nothing-taken n r u e t)
        (λ c e.
          let full =
            or-false (not (length q.body == q.head.data_len)) (is_genuine a n src hash id) c in
          (
            (==_iff (length q.body) q.head.data_len).0
                (not-false (length q.body == q.head.data_len) full.0),
            full.1,
            elim (Bool-cases (is_control q.head.type)) [
              | inl y ↦ inl y
              | inr y ↦ inr (
                  taken-Hears_data n src q u r full.1
                    (if_false (is_control q.head.type) (handle_monitor n q) _ (some r) y e) t)
            ],
          ))
        h
