-- ===== src/Prot/State.antt =====
-- The static variables of daemon/protocol.c and those of daemon/prot_body.h, as one record. Sequence
-- numbers are int32 in the source and run from 0 to little over MAX_WRAP_SEQUENCE_VALUE, so they
-- are natural numbers here. Effects on the outside are kept in `out`, the newest first; allocation,
-- alarms that do not end the process, and the counters of `GlobalStatus` are left out.
use java_spread_assignment.Base.{ℕ, ◌%◌, Bool, List, ◌∷◌, Option, ◌==◌, if◌then◌else◌}
use java_spread_assignment.Base.Int.{ℤ}
use java_spread_assignment.NetTypes.{MembershipId}
use java_spread_assignment.Conf.{Proc, Configuration}
use java_spread_assignment.Memb.{MembersInfo, Memb}
use java_spread_assignment.Memb.Reps.{RepsInfo, RingInfo}
use java_spread_assignment.Flow.{Flow}

-- `packet_header`; `frag_index` and `frag_len` are its `first_frag_header`.
pub record PacketHeader : Type 0 where
  pub type : ℕ
  pub transmiter_id : ℕ
  pub proc_id : ℕ
  pub memb_id : MembershipId
  pub seq : ℕ
  pub token_round : ℕ
  pub conf_hash : ℕ
  pub data_len : ℕ
  pub frag_index : ℤ
  pub frag_len : ℤ

-- `packet_info`. `exist` is 0 for an empty slot, 1 for a packet, 2 for one that is delivered, and 3
-- for a hole that a membership change has filled. A body is the list of its bytes.
pub record PacketInfo : Type 0 where
  pub head : PacketHeader
  pub body : List ℕ
  pub exist : ℕ
  pub proc_index : ℕ

-- `scat_element`
pub record Element : Type 0 where
  pub buf : List ℕ
  pub len : ℕ

-- `scatter`
abbrev pub Scatter : Type 0
Scatter = List Element

-- `ring_rtr` and the sequence numbers that follow it in a token's body.
pub record RingRtr : Type 0 where
  pub memb_id : MembershipId
  pub proc_id : ℕ
  pub seg_index : ℕ
  pub seqs : List ℕ

-- `token_header`
pub record Token : Type 0 where
  pub type : ℕ
  pub transmiter_id : ℕ
  pub proc_id : ℕ
  pub memb_id : MembershipId
  pub seq : ℕ
  pub aru : ℕ
  pub aru_last_id : ℕ
  pub flow_control : ℤ
  pub rtr_len : ℕ
  pub conf_hash : ℕ

-- What a form token carries behind the members: the representatives, or the identifier of the new
-- membership.
pub data FormBody : Type 0 where
  reps_body : RepsInfo → FormBody
  id_body : MembershipId → FormBody

-- A form token: its header, the members, that part, and the rings that are to be merged.
pub record FormToken : Type 0 where
  pub head : Token
  pub members : MembersInfo
  pub body : FormBody
  pub rings : List RingInfo

-- `down_link`: a message of the daemon's own clients, cut into fragments.
pub record DownLink : Type 0 where
  pub type : ℕ
  pub mess : Scatter

-- `down_queue`; `num_mess` is the length of the list.
pub record DownQueue : Type 0 where
  pub links : List DownLink
  pub cur_element : ℕ

-- A packet on its way to the network.
pub record Packet : Type 0 where
  pub head : PacketHeader
  pub body : List ℕ

pub data Event : Type 0 where
  token_loss token_hurry lookup_new_members initiate_conf_reload : Event
  deliver_all_reliable deliver_agreed : Event
  scast_alive gather_or_represented shift_to_seg send_join form_or_fail : Event

pub data Delay : Type 0 where
  zero_timeout token_timeout hurry_timeout lookup_timeout : Delay
  alive_timeout join_timeout rep_timeout seg_timeout gather_timeout form_timeout : Delay

-- Calls that leave the protocol: to the session layer, the network, the event system, and the
-- handlers of the other parts of the daemon.
pub data Effect : Type 0 where
  sess_deliver_message : Scatter → Effect
  sess_deliver_trans_memb : Configuration → MembershipId → Effect
  sess_deliver_reg_memb : Configuration → MembershipId → Effect
  sess_block_users_level : Effect
  sess_unblock_users_level : Effect
  net_bcast : Packet → Effect
  net_ucast : ℕ → Packet → Effect
  net_scast : ℕ → Packet → Effect
  net_ucast_hurry : ℕ → Effect
  net_send_token : Token → List RingRtr → Effect
  net_clear_partition : Effect
  net_set_partition : List ℕ → Effect
  net_signal_conf_reload : Effect
  sess_signal_conf_reload : Effect
  bcast_channels_first : Effect
  token_channels_first : Effect
  e_queue : Event → Delay → Effect
  e_dequeue : Event → Effect
  stat_handle_message : Packet → Effect
  fc_handle_message : Packet → Effect
  memb_handle_message : Packet → Effect
  memb_handle_token : Token → Effect
  memb_token_loss : Effect
  net_scast_alive : ℕ → MembersInfo → Effect
  net_scast_join : ℕ → MembersInfo → RepsInfo → Effect
  net_ucast_join : ℕ → MembersInfo → RepsInfo → Effect
  net_ucast_refer : ℕ → ℕ → ℕ → Effect
  net_ucast_foreign : ℕ → Packet → Effect
  net_ucast_token : ℕ → FormToken → Effect
  net_send_form : FormToken → Effect
  net_set_membership : Configuration → Effect
  prot_initiate_conf_reload : Effect

-- `gstate` is `GlobalStatus.gstate`, the state of daemon/groups.c, which alone writes it.
pub record Prot : Type 0 where
  pub my : Proc
  pub my_index : ℕ
  pub conf : Configuration
  pub memb : Memb
  pub flow : Flow
  pub packets : ℕ → PacketInfo
  pub up_queue : ℕ → Option Scatter
  pub down_queue : DownQueue
  pub send_queue : List Packet
  pub aru : ℕ
  pub my_aru : ℕ
  pub highest_seq : ℕ
  pub highest_fifo_seq : ℕ
  pub last_discarded : ℕ
  pub last_delivered : ℕ
  pub last_seq : ℕ
  pub token_rounds : ℕ
  pub received_token_rounds : ℕ
  pub token_counter : ℕ
  pub token_has_priority : Bool
  pub prev_proc_id : ℕ
  pub last_token : Token
  pub last_num_retrans : ℕ
  pub last_num_sent : ℕ
  pub delivery_threshold : ℕ
  pub need_conf_reload : Bool
  pub in_reload_singleton : Bool
  pub wide_network : Bool
  pub gstate : ℕ
  -- The sequence numbers that `Deliver_packet` was called for, the newest first: what
  -- `GlobalStatus.packet_delivered` counts.
  pub handed_up : List ℕ
  pub out : List Effect

abbrev pub emit : Effect → Prot → Prot
emit e s = record s { out = e ∷ s.out }

-- MAX_PACKETS_IN_STRUCT and `& PACKET_MASK`.
abbrev pub entry : ℕ → ℕ
entry seq = seq % 8192

abbrev pub max_procs_ring : ℕ
max_procs_ring = 128

-- A write to one place of an array.
unfoldable pub put {ℓ} : {A : Type ℓ} → (ℕ → A) → ℕ → A → ℕ → A
put f i a j = if j == i then a else f j

abbrev pub set_packet : ℕ → PacketInfo → Prot → Prot
set_packet e p s = record s { packets = put s.packets e p }

abbrev pub set_exist : ℕ → ℕ → Prot → Prot
set_exist e x s = set_packet e (record (s.packets e) { exist = x }) s
