-- ===== src/Prot/Hurry.antt =====
-- `Is_token_hold`, `Prot_token_hurry`, `Handle_hurry` and `Prot_new_message` of daemon/protocol.c:
-- when the leader keeps the token, and what sends it on.
use java_spread_assignment.Base.{
  ℕ, suc, Bool, true, false, [], ◌∷◌, ◌++◌, Option, none, some, ◌&&◌, ◌||◌, ◌==◌, ltb, leb,
  if◌then◌else◌, length,
}
use java_spread_assignment.Base.Seqs.{◌>>=◌}
use java_spread_assignment.NetTypes.{get_retrans, set_retrans}
use java_spread_assignment.Conf
use java_spread_assignment.Memb
use java_spread_assignment.Memb.{is_op, is_gather}
use java_spread_assignment.Prot.State.{
  DownLink, Prot, emit, net_send_token, e_queue, token_hurry, hurry_timeout, sess_block_users_level,
  net_ucast_hurry,
}
use java_spread_assignment.Prot.Send.{water_mark}

unfoldable pub is_token_hold : Prot → Bool
is_token_hold s =
    (is_op s.memb.state || (is_gather s.memb.state && s.memb.token_alive))
    && (leb (get_retrans s.last_token.type) 1
        && ((s.aru == s.highest_seq) && ltb 1 s.token_counter))

-- The same conditions, tested before the token is sent.
unfoldable pub to_hold_token : Prot → Bool
to_hold_token s =
    (is_op s.memb.state || (is_gather s.memb.state && s.memb.token_alive))
    && (leb (get_retrans s.last_token.type) 1
        && ((s.aru == s.highest_seq) && ltb 1 s.token_counter))

-- `Conf_leader( Memb_active_ptr() )`; an empty configuration is a fatal alarm.
unfoldable pub leader_id : Prot → Option ℕ
leader_id s = Conf.leader (Memb.active_ptr s.memb)

unfoldable pub retransmit : Prot → Prot
retransmit s = emit (net_send_token s.last_token []) s

-- The last process of the daemon's segment, asked for on a wide network only.
unfoldable pub is_last_of_segment : Prot → Option Bool
is_last_of_segment s =
    if s.wide_network
    then (Conf.seg_last (Memb.active_ptr s.memb) s.my.seg_index >>= λ last_id.
        some (last_id == s.my.id))
    else some false

-- The leader counts a retransmission in the token and sets its timer. The token is sent once, again
-- for the next segment, and twice more once it was retransmitted before.
unfoldable pub prot_token_hurry : Prot → Option Prot
unfolding leader_id retransmit is_last_of_segment
prot_token_hurry s =
    let t = record s { last_token = record s.last_token { rtr_len = 0 } } in
    let counted = record t {
      last_token = record t.last_token {
        type = set_retrans t.last_token.type (suc (get_retrans t.last_token.type));
      };
    } in
    leader_id s >>= λ first.
    let u = if first == s.my.id then emit (e_queue token_hurry hurry_timeout) counted else t in
    is_last_of_segment u >>= λ again.
    let v = if again then retransmit (retransmit u) else retransmit u in
    some (if ltb 1 (get_retrans v.last_token.type) then retransmit (retransmit v) else v)

abbrev is_known : Option ℕ → Bool
is_known none = false
is_known (some i) = true

-- A request for the token from `proc_id`.
unfoldable pub handle_hurry : ℕ → Prot → Option Prot
unfolding prot_token_hurry is_token_hold
handle_hurry proc_id s = leader_id s >>= λ first.
    if (first == s.my.id) && is_token_hold s
    then if is_known (Conf.id_in_conf (Memb.active_ptr s.memb) proc_id)
      then prot_token_hurry (record s { token_counter = 0 })
      else some s
    else some s

-- A new message of a client: the token is asked for if the queue was empty and the token is held.
unfoldable pub new_message : DownLink → Prot → Option Prot
unfolding handle_hurry
new_message l s =
    let links = s.down_queue.links ++ (l ∷ []) in
    let t = record s { down_queue = record s.down_queue { links = links } } in
    let u = if leb water_mark (length links) then emit sess_block_users_level t else t in
    if (length links == 1) && is_token_hold u
    then (leader_id u >>= λ first.
        if first == u.my.id then handle_hurry u.my.id u else some (emit (net_ucast_hurry first) u))
    else some u
