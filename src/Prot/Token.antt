-- ===== src/Prot/Token.antt =====
-- `Prot_handle_token` of daemon/protocol.c: what is done with a token, in the order of the source.
use java_spread_assignment.Base.{
  ℕ, zero, suc, ◌+◌, ◌-◌, ◌%◌, ◌^◌, Bool, true, false, not, List, Option, none, some, ◌&&◌, ◌||◌,
  ◌==◌, ltb, if◌then◌else◌,
}
use java_spread_assignment.Base.Int.{ℤ, pos, negsuc, ◌+ℤ◌, ◌-ℤ◌}
use java_spread_assignment.Base.Seqs.{◌>>=◌}
use java_spread_assignment.NetTypes.{is_form, get_arq, set_arq, get_retrans, set_retrans}
use java_spread_assignment.Conf
use java_spread_assignment.Memb
use java_spread_assignment.Memb.{is_evs}
use java_spread_assignment.Flow
use java_spread_assignment.Prot.State.{
  RingRtr, Token, Prot, emit, memb_handle_token, memb_token_loss, net_send_token, e_queue,
  token_hurry, token_loss, hurry_timeout, token_timeout, bcast_channels_first,
}
use java_spread_assignment.Prot.Frag.{int16_bits}
use java_spread_assignment.Prot.Deliver.{deliver_agreed_packets, deliver_reliable_packets}
use java_spread_assignment.Prot.Discard.{discard_packets}
use java_spread_assignment.Prot.Send.{send_new_packets, flush_bcast}
use java_spread_assignment.Prot.Hurry.{leader_id, to_hold_token, prot_token_hurry}
use java_spread_assignment.Prot.Bcast.{raise_my_aru}
use java_spread_assignment.Prot.Retrans.{
  Answers, answer_retrans, request_retrans, body_bytes, token_header_size,
}

abbrev pub max_wrap_sequence_value : ℕ
max_wrap_sequence_value = 2 ^ 30

abbrev pub max_evs_rounds : ℕ
max_evs_rounds = 500

-- The first token after a membership is installed: the `aru` of the change is wiped out.
unfoldable pub just_installed : Prot → Prot
just_installed s =
    if s.memb.just_installed
    then record s {
      memb = record s.memb { just_installed = false };
      last_token = record s.last_token { aru = 0 };
    }
    else s

-- The leader takes the token that it sent last, once round the ring; another daemon takes the next
-- one, and sends the last one again if it is asked to. `false` means that the token is swallowed.
unfoldable pub check_arq : Token → Prot → Option (Bool × Prot)
unfolding just_installed
check_arq tok s = leader_id s >>= λ first.
    if first == s.my.id
    then if not (get_arq tok.type == get_arq s.last_token.type)
      then some (false, s)
      else some (true, just_installed s)
    else if get_arq tok.type == get_arq s.last_token.type
    then if ltb (get_retrans s.last_token.type) (get_retrans tok.type)
      then (prot_token_hurry (record s {
        last_token = record s.last_token {
          type = set_retrans s.last_token.type (get_retrans tok.type);
        };
      })
          >>= λ t. some (false, t))
      else some (false, s)
    else if not (get_arq tok.type == (get_arq s.last_token.type + 1) % 16)
    then some (false, s)
    else some (true, just_installed s)

-- The tests before the sequence of tokens is looked at. `received_bytes` is what `Net_recv_token`
-- returned.
unfoldable pub admit : ℕ → Token → Prot → Option (Bool × Prot)
unfolding check_arq
admit received_bytes tok s =
    if not s.memb.token_alive
    then some (false, s)
    else if not (Memb.is_equal tok.memb_id (Memb.active_id s.memb))
    then some (false, s)
    else (Conf.previous s.my (Memb.active_ptr s.memb) >>= λ previous_id.
        if not (tok.transmiter_id == previous_id)
        then some (false, s)
        else if not (received_bytes == token_header_size + tok.rtr_len)
        then some (false, s)
        else if not (is_evs s.memb.state) && ltb max_wrap_sequence_value tok.seq
        then some (false, s)
        else check_arq tok s)

-- Broadcast channels come first again until the next round is seen.
unfoldable pub note_round : Token → Prot → Prot
note_round tok s =
    let t = record s {
      highest_seq = if ltb s.highest_seq tok.seq then tok.seq else s.highest_seq;
      received_token_rounds = suc s.received_token_rounds;
    } in
    if t.token_has_priority
    then emit bcast_channels_first (record t { token_has_priority = false })
    else t

-- A value put into an int16 field.
unfoldable pub to_int16 : ℤ → ℤ
unfolding int16_bits
to_int16 z = let v = int16_bits z in if ltb v 32768 then pos v else negsuc (65535 - v)

-- This daemon's part of the load is taken out of the token, and its part of this round put in.
unfoldable pub count_load : ℕ → ℕ → Token → Prot → Token × Prot
unfolding to_int16
count_load num_retrans num_sent tok s = (
  record tok {
    flow_control = to_int16 (
        tok.flow_control
        -ℤ pos s.last_num_retrans
        -ℤ pos s.last_num_sent
        +ℤ pos num_retrans
        +ℤ pos num_sent);
  },
  record s { last_num_retrans = num_retrans; last_num_sent = num_sent },
)

-- In a membership change, a daemon that has all packets commits.
unfoldable pub commit_if_complete : Prot → Prot
commit_if_complete s =
    if is_evs s.memb.state && (s.my_aru == s.highest_seq)
    then record s { my_aru = s.last_seq; memb = Memb.commit s.memb }
    else s

-- `aru` is lowered by a daemon that misses packets, and raised by the one that changed it last, or
-- by any if all daemons have all packets. Then the token carries this daemon's numbers.
unfoldable pub stamp_token : Token → Prot → Token
stamp_token tok s =
    let moved =
      if ltb s.my_aru tok.aru
        || ((tok.aru_last_id == s.my.id) || ((tok.aru == tok.seq) && not (is_evs s.memb.state)))
      then record tok { aru = s.my_aru; aru_last_id = s.my.id }
      else tok in
    record moved {
      proc_id = s.my.id;
      seq = if is_evs s.memb.state then moved.seq else s.highest_seq;
    }

-- The leader starts a new round.
unfoldable pub next_arq : Bool → Token → Token
next_arq is_leader tok =
    if is_leader
    then record tok { type = set_retrans (set_arq tok.type ((get_arq tok.type + 1) % 16)) 0 }
    else tok

-- The leader may hold the token. A token that was retransmitted before is sent three times.
unfoldable pub send_token : Bool → Token → List RingRtr → Prot → Prot
send_token is_leader tok body s =
    let send = λ (t : Prot). emit (net_send_token tok body) t in
    if is_leader && to_hold_token s
    then s
    else if ltb 1 (get_retrans tok.type)
    then send (send (send s))
    else send s

unfoldable pub set_timers : Bool → Prot → Prot
set_timers is_leader s =
    let t = record s { token_rounds = suc s.token_rounds } in
    emit (e_queue token_loss token_timeout)
      (if is_leader then emit (e_queue token_hurry hurry_timeout) t else t)

-- `Aru` becomes the smaller `aru` of this token and the last one; lowering it is a fatal alarm.
unfoldable pub update_aru : Token → Prot → Option Prot
update_aru tok s =
    let new = if ltb s.last_token.aru tok.aru then s.last_token.aru else tok.aru in
    if ltb new s.aru
    then none
    else some (record s {
      aru = new;
      token_counter = if s.highest_seq == new then suc s.token_counter else 0;
      last_token = tok;
    })

unfoldable pub give_up_evs : Prot → Prot
give_up_evs s =
    if is_evs s.memb.state && ltb max_evs_rounds s.token_rounds then emit memb_token_loss s else s

-- What became stable is delivered and discarded, then what is ordered, then this round's own
-- reliable messages.
unfoldable pub deliver_round : ℕ → Prot → Option Prot
unfolding give_up_evs
deliver_round num_sent s = discard_packets s >>= λ t. deliver_agreed_packets t >>= λ u.
    deliver_reliable_packets (u.highest_seq + 1 - num_sent) num_sent u >>= λ v. some (give_up_evs v)

module _ (body_size : ℕ) where
  -- The token is used: requests are answered, new packets sent, and the load counted.
  unfoldable pub use_token : Token → List RingRtr → Prot → Option (Token × Answers × ℕ × Prot)
  unfolding note_round count_load
  use_token tok body s = answer_retrans body (note_round tok s) >>= λ answered.
      let answers = answered.0 in
      let t = answered.1 in
      send_new_packets body_size
        (Flow.allowed t.flow t.memb.state t.highest_seq t.aru tok.flow_control) t
      >>= λ sent.
          let loaded = count_load answers.num_retrans sent.0 tok sent.1 in
          some (loaded.0, answers, sent.0, loaded.1)

  unfoldable pub process_token : Token → List RingRtr → Prot → Option Prot
  unfolding use_token commit_if_complete stamp_token next_arq send_token set_timers update_aru
  process_token tok body s = use_token tok body s >>= λ used.
      let t = raise_my_aru used.3 in
      let requests = request_retrans used.1 t in
      let u = commit_if_complete t in
      leader_id u >>= λ first.
      let is_leader = first == u.my.id in
      let stamped =
        next_arq is_leader (stamp_token (record used.0 { rtr_len = body_bytes requests }) u) in
      let v = flush_bcast (set_timers is_leader (send_token is_leader stamped requests u)) in
      update_aru stamped v >>= λ w. deliver_round used.2 w

  unfoldable pub take_token : Bool × Prot → Token → List RingRtr → Option Prot
  unfolding process_token
  take_token (true, s) tok body = process_token tok body s
  take_token (false, s) tok body = some s

  -- The token's body is the one after `Flip_token_body`.
  unfoldable pub handle_token : ℤ → Token → List RingRtr → Prot → Option Prot
  unfolding admit take_token
  handle_token (negsuc n) tok body s = some s
  handle_token (pos zero) tok body s = some s
  handle_token (pos (suc n)) tok body s =
      if is_form tok.type
      then some (emit (memb_handle_token tok) s)
      else (admit (suc n) tok s >>= λ r. take_token r tok body)
