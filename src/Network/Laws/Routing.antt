-- ===== src/Network/Laws/Routing.antt =====
-- The way of a broadcast through the segments: daemon/network.c sends it to one process of each
-- other segment, and that one sends it on to its own.
use java_spread_assignment.Base.{
  ℕ, suc, ◌≤◌, ◌≡◌, true, false, Bool-cases, inl, inr, not, ◌&&◌, refl, ap, ◌∙◌, List, [], ◌∷◌,
  ◌++◌, Option, none, some, map, arith, ◌==◌, ltb, if◌then◌else◌, length,
}
use java_spread_assignment.Base.Int.{ℤ, pos}
use java_spread_assignment.Base.Seqs.{◌>>=◌}
use java_spread_assignment.NetTypes.{
  is_routed, clear_routed, set_routed, set_endian, is_control, same_endian,
}
use java_spread_assignment.NetTypes.Bits.{routed_marks, clear_routed_twice}
use java_spread_assignment.Prot.State.{Packet}
use java_spread_assignment.Network.{Addressing, Network, Send, datagram, max_addrs_segment}
use java_spread_assignment.Network.Sending.{
  Sent, send_bcast, stamp, routed, unrouted, net_bcast, last_ret, after_routing,
}
use java_spread_assignment.Network.Receiving.{
  nothing, whole, is_genuine, in_my_component, in_my_order, renamed, hand_up, recv_packet, net_recv,
}

bind_through :
    {A B C : Type 0} (o : Option A) (g : A → B) (f : B → C)
    → (o >>= λ s. some (f (g s))) ≡ ((o >>= λ s. some (g s)) >>= λ l. some (f l))
bind_through none g f = refl
bind_through (some s) g f = refl

bind_some :
    {A B C : Type 0} (o : Option A) (f : A → B) (g : B → Option C)
    → ((o >>= λ q. some (f q)) >>= g) ≡ (o >>= λ q. g (f q))
bind_some none f g = refl
bind_some (some q) f g = refl

-- A daemon takes packets of this hash code and sender from that address: the sender is known there,
-- is another daemon, and is in the same component.
pub record Hears {Addr : Type 0} (a : Addressing Addr) (n : Network Addr) (src : Addr) (hash id : ℕ)
    : Type 0 where
  pub genuine : is_genuine a n src hash id ≡ true
  pub other : (id == n.my.id) ≡ false
  pub component : in_my_component n id ≡ true

in_my_order-renamed :
    {Addr : Type 0} (n : Network Addr) (p : Packet)
    → same_endian p.head.type ≡ true
    → in_my_order (renamed n p) ≡ renamed n p
unfolding in_my_order renamed
in_my_order-renamed n p order =
    let kept : (same_endian (clear_routed p.head.type) ≡ true) =
      (routed_marks p.head.type).5 ∙ order in
    rw kept refl

module _ {Addr : Type 0} (a : Addressing Addr) (dl_sendto : Addr → Packet → ℤ) where
  send_bcast-sends :
      (p : Packet) (ts : List Addr)
      → 1 ≤ length ts
      → length ts ≤ max_addrs_segment
      → (send_bcast dl_sendto p ts >>= λ s. some s.sends) ≡ some (map (λ t. datagram t p) ts)
  unfolding send_bcast
  send_bcast-sends p [] h k = absurd (omega arith)
  send_bcast-sends p (t ∷ ts) h k =
      let fits : ltb max_addrs_segment (suc (length ts)) ≡ false = ground arith in rw fits refl

  -- A daemon takes an ordinary packet in its own byte order that passes the checks.
  recv_packet-hand_up :
      (n : Network Addr) (src : Addr) (p : Packet)
      → length p.body ≡ p.head.data_len
      → is_control p.head.type ≡ false
      → same_endian p.head.type ≡ true
      → Hears a n src p.head.conf_hash p.head.transmiter_id
      → net_recv a dl_sendto n src (whole p) ≡ hand_up a dl_sendto n p
  unfolding net_recv recv_packet in_my_order
  recv_packet-hand_up n src p len control order h =
      let full : (length p.body == p.head.data_len) ≡ true = ground arith in
      rw (order, full, h.genuine, control, h.other, h.component) refl

  after_routing-sends :
      (n : Network Addr) (p : Packet)
      → 1 ≤ length n.bcast_addrs
      → length n.bcast_addrs ≤ max_addrs_segment
      → (after_routing dl_sendto n p >>= λ s. some s.sends)
        ≡ some (if n.bcast_needed then map (λ t. datagram t p) n.bcast_addrs else [])
  unfolding after_routing
  after_routing-sends n p h k = elim (Bool-cases n.bcast_needed) [
    | inl e ↦ rw e (send_bcast-sends p n.bcast_addrs h k)
    | inr e ↦ rw e refl
  ]

  hand_up-routed :
      (n : Network Addr) (p : Packet)
      → is_routed p.head.type ≡ true
      → same_endian p.head.type ≡ true
      → n.bcast_needed ≡ true
      → 1 ≤ length n.bcast_addrs
      → length n.bcast_addrs ≤ max_addrs_segment
      → hand_up a dl_sendto n p
        ≡ some (record (nothing n) {
          taken = some (renamed n p);
          sends = map (λ t. datagram t (renamed n p)) n.bcast_addrs;
        })
  unfolding hand_up
  hand_up-routed n p marked order needed h k =
      let u = renamed n p in
      simp (marked, needed, in_my_order-renamed n p order)
        (bind_through (send_bcast dl_sendto u n.bcast_addrs) (λ (s : Sent Addr). s.sends)
            (λ l. record (nothing n) { taken = some u; sends = l })
          ∙ ap
              (λ (r : Option (List (Send Addr))).
                r >>= λ l. some (record (nothing n) { taken = some u; sends = l }))
              (send_bcast-sends u n.bcast_addrs h k))

  hand_up-unrouted :
      (n : Network Addr) (p : Packet)
      → is_routed p.head.type ≡ false
      → hand_up a dl_sendto n p ≡ some (record (nothing n) { taken = some (unrouted p) })
  unfolding hand_up
  hand_up-unrouted n p unmarked = rw unmarked refl

  -- `Net_bcast` sends the packet, marked as routed, to the addresses of the other segments, and
  -- unmarked to its own segment's addresses if the segment has another daemon.
  pub net_bcast-sends :
      (n : Network Addr) (p : Packet)
      → 1 ≤ length n.bcast_addrs
      → length n.bcast_addrs ≤ max_addrs_segment
      → (net_bcast dl_sendto n p >>= λ s. some s.sends)
        ≡ some (
            map (λ t. datagram t (stamp n (routed p))) n.send_addrs
            ++ (if n.bcast_needed
                then map (λ t. datagram t (unrouted (stamp n (routed p)))) n.bcast_addrs
                else []))
  unfolding net_bcast after_routing
  net_bcast-sends n p h k =
      let q = stamp n (routed p) in
      let o = after_routing dl_sendto n (unrouted q) in
      bind_some o
        (λ (rest : Sent Addr). record {
          ret =
              if not n.bcast_needed && not (length n.send_addrs == 0)
              then last_ret (pos 0) (map (λ u. dl_sendto u q) n.send_addrs)
              else rest.ret;
          pack = unrouted q;
          sends = map (λ u. datagram u q) n.send_addrs ++ rest.sends;
        })
        (λ (s : Sent Addr). some s.sends)
      ∙ bind_through o (λ (s : Sent Addr). s.sends) (λ l. map (λ u. datagram u q) n.send_addrs ++ l)
      ∙ ap
          (λ (r : Option (List (Send Addr))).
            r >>= λ l. some (map (λ u. datagram u q) n.send_addrs ++ l))
          (after_routing-sends n (unrouted q) h k)

  -- A packet that a broadcast sends to another segment is taken there, without the mark, and sent
  -- on to the segment's addresses in the daemon's own name; a daemon that hears it from there takes
  -- it and sends nothing.
  pub routed_once :
      (n m k : Network Addr) (src src' : Addr) (p : Packet)
      → length p.body ≡ p.head.data_len
      → is_control p.head.type ≡ false
      → Hears a m src n.conf.hash_code n.my.id
      → m.bcast_needed ≡ true
      → 1 ≤ length m.bcast_addrs
      → length m.bcast_addrs ≤ max_addrs_segment
      → Hears a k src' n.conf.hash_code m.my.id
      → (u : Packet) × (net_recv a dl_sendto m src (whole (stamp n (routed p)))
          ≡ some (record (nothing m) {
            taken = some u;
            sends = map (λ t. datagram t u) m.bcast_addrs;
          }))
        × (net_recv a dl_sendto k src' (whole u) ≡ some (record (nothing k) { taken = some u }))
        × (u.body ≡ p.body)
        × (u.head.seq ≡ p.head.seq)
  unfolding stamp routed hand_up renamed in_my_order unrouted
  routed_once n m k src src' p len control hm needed some_addr few hk =
      let q = stamp n (routed p) in
      let u = renamed m q in
      let t = set_endian (set_routed p.head.type) in
      let marks = routed_marks (set_routed p.head.type) in
      let cleared = routed_marks t in
      let control' : (is_control t ≡ false) = (routed_marks p.head.type).2 ∙ control in
      (
        u,
        recv_packet-hand_up m src q len control' marks.0 hm
            ∙ hand_up-routed m q (routed_marks p.head.type).1 marks.0 needed some_addr few,
        recv_packet-hand_up k src' u len (cleared.4 ∙ control') (cleared.5 ∙ marks.0) hk
            ∙ hand_up-unrouted k u cleared.3
            ∙ ap
                (λ c. some (record (nothing k) {
                  taken = some (record u { head = record u.head { type = c } });
                }))
                (clear_routed_twice t),
        refl,
        refl,
      )
