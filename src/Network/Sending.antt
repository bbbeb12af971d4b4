-- ===== src/Network/Sending.antt =====
-- The operations of daemon/network.c that send: a packet to everyone, to a segment, to one process,
-- and the token to the next process or to a given one.
use java_spread_assignment.Base.{
  ℕ, suc, Bool, not, ◌&&◌, ◌||◌, List, [], ◌∷◌, ◌++◌, Option, none, some, map, ◌==◌, ltb,
  if◌then◌else◌, length,
}
use java_spread_assignment.Base.Int.{ℤ, pos, negsuc, ltb_ℤ}
use java_spread_assignment.Base.Seqs.{◌>>=◌}
use java_spread_assignment.NetTypes.{set_routed, clear_routed, set_endian}
use java_spread_assignment.Conf.{Proc, proc_by_id_in_conf, seg_at}
use java_spread_assignment.Prot.State.{Packet, Token}
use java_spread_assignment.Prot.Retrans.{token_body_size}
use java_spread_assignment.Network.{
  Addressing, Network, Send, datagram, token_datagram, max_addrs_segment,
}

-- What a sending operation gives: its result, the packet as it leaves it, and the datagrams.
pub record Sent (Addr : Type 0) : Type 0 where
  pub ret : ℤ
  pub pack : Packet
  pub sends : List (Send Addr)

-- The least result, as the loop keeps it.
unfoldable pub least_ret : ℤ → List ℤ → ℤ
least_ret ret [] = ret
least_ret ret (tmp ∷ ts) = least_ret (if ltb_ℤ tmp ret then tmp else ret) ts

unfoldable pub last_ret : ℤ → List ℤ → ℤ
last_ret ret [] = ret
last_ret ret (r ∷ rs) = last_ret r rs

-- The header fields that every operation fills in.
unfoldable pub stamp : {Addr : Type 0} → Network Addr → Packet → Packet
stamp n p = record p {
  head = record p.head {
    type = set_endian p.head.type;
    conf_hash = n.conf.hash_code;
    transmiter_id = n.my.id;
  };
}

unfoldable pub routed : Packet → Packet
routed p = record p { head = record p.head { type = set_routed p.head.type } }

unfoldable pub unrouted : Packet → Packet
unrouted p = record p { head = record p.head { type = clear_routed p.head.type } }

unfoldable pub stamp_header : {Addr : Type 0} → Network Addr → Token → Token
stamp_header n t = record t {
  type = set_endian t.type;
  conf_hash = n.conf.hash_code;
  transmiter_id = n.my.id;
}

-- The body of a token, in bytes, has to be as long as its header says and has to fit.
unfoldable pub is_wrong_size : Token → List ℕ → Bool
is_wrong_size t body = not (length body == t.rtr_len) || ltb token_body_size (length body)

module _ {Addr : Type 0} (dl_sendto : Addr → Packet → ℤ) where
  -- `send_bcast` to the addresses of the daemon's segment; none, or too many, are fatal.
  unfoldable pub send_bcast : Packet → List Addr → Option (Sent Addr)
  unfolding least_ret
  send_bcast p [] = none
  send_bcast p (t ∷ ts) =
      if ltb max_addrs_segment (suc (length ts))
      then none
      else some (record {
        ret = least_ret (dl_sendto t p) (map (λ u. dl_sendto u p) ts);
        pack = p;
        sends = map (λ u. datagram u p) (t ∷ ts);
      })

  -- The sends of `Net_bcast` before the broadcast, which may follow.
  unfoldable pub after_routing : Network Addr → Packet → Option (Sent Addr)
  unfolding send_bcast
  after_routing n p =
      if n.bcast_needed
      then send_bcast p n.bcast_addrs
      else some (record { ret = pos 1; pack = p; sends = [] })

  unfoldable pub net_bcast : Network Addr → Packet → Option (Sent Addr)
  unfolding after_routing stamp routed unrouted last_ret
  net_bcast n p =
      let q = stamp n (routed p) in
      after_routing n (unrouted q) >>= λ rest. some (record {
        ret =
            if not n.bcast_needed && not (length n.send_addrs == 0)
            then last_ret (pos 0) (map (λ u. dl_sendto u q) n.send_addrs)
            else rest.ret;
        pack = unrouted q;
        sends = map (λ u. datagram u q) n.send_addrs ++ rest.sends;
      })

module _ {Addr : Type 0} (a : Addressing Addr) (dl_sendto : Addr → Packet → ℤ) where
  -- A packet for another segment goes to its first process, which is to send it on.
  unfoldable pub to_first_of : List Proc → Packet → Sent Addr
  unfolding routed unrouted
  to_first_of [] p = record { ret = pos 1; pack = p; sends = [] }
  to_first_of (f ∷ ps) p = record {
    ret = dl_sendto (a.proc_addr f) (routed p);
    pack = unrouted (routed p);
    sends = datagram (a.proc_addr f) (routed p) ∷ [];
  }

  unfoldable pub net_scast : Network Addr → ℕ → Packet → Option (Sent Addr)
  unfolding after_routing stamp to_first_of
  net_scast n seg_index p =
      if seg_index == n.my.seg_index
      then after_routing dl_sendto n (stamp n p)
      else some (to_first_of (seg_at n.net_membership.segments seg_index).procs (stamp n p))

  -- An unknown process gives -1, with the packet stamped already.
  unfoldable pub ucast_to : Option (ℕ × Proc) → Packet → Sent Addr
  ucast_to none p = record { ret = negsuc 0; pack = p; sends = [] }
  ucast_to (some (i, f)) p = record {
    ret = dl_sendto (a.proc_addr f) p;
    pack = p;
    sends = datagram (a.proc_addr f) p ∷ [];
  }

  unfoldable pub net_ucast : Network Addr → ℕ → Packet → Sent Addr
  unfolding stamp ucast_to
  net_ucast n proc_id p = ucast_to (proc_by_id_in_conf n.conf proc_id) (stamp n p)

unfoldable pub net_send_token :
    {Addr : Type 0} → Network Addr → Token → List ℕ → Option (List (Send Addr))
unfolding stamp_header is_wrong_size
net_send_token n t body =
    if is_wrong_size t body
    then none
    else some (token_datagram n.token_addr (stamp_header n t) body ∷ [])

module _ {Addr : Type 0} (a : Addressing Addr) where
  unfoldable pub token_to : Option (ℕ × Proc) → Token → List ℕ → List (Send Addr)
  token_to none t body = []
  token_to (some (i, f)) t body = token_datagram (a.next_port (a.proc_addr f)) t body ∷ []

  unfoldable pub net_ucast_token : Network Addr → ℕ → Token → List ℕ → Option (List (Send Addr))
  unfolding stamp_header is_wrong_size token_to
  net_ucast_token n proc_id t body =
      if is_wrong_size t body
      then none
      else some (token_to (proc_by_id_in_conf n.conf proc_id) (stamp_header n t) body)
