-- ===== src/Tests/Samples.antt =====
-- A ring of three daemons in two segments, seen by the second one, and packets 1 to 4 of its window:
-- 1 and 2 agreed, 3 delivered early, 4 safe.
use java_spread_assignment.Base.{ℕ, true, false, [], ◌∷◌, Option, none, some, ◌==◌, if◌then◌else◌}
use java_spread_assignment.Base.Int.{pos, negsuc}
use java_spread_assignment.NetTypes.{MembershipId}
use java_spread_assignment.Conf.{Proc, Configuration}
use java_spread_assignment.Memb.{State, MembersInfo, Memb}
use java_spread_assignment.Prot.State.{
  PacketHeader, PacketInfo, Packet, Scatter, DownLink, Token, Prot,
}

abbrev pub first_proc : Proc
first_proc = record { name = 97 ∷ []; id = 1; seg_index = 0; index_in_seg = 0 }

abbrev pub my_proc : Proc
my_proc = record { name = 98 ∷ []; id = 2; seg_index = 0; index_in_seg = 1 }

abbrev pub last_proc : Proc
last_proc = record { name = 99 ∷ []; id = 3; seg_index = 1; index_in_seg = 0 }

abbrev pub conf : Configuration
conf = record {
  hash_code = 0;
  allprocs = first_proc ∷ my_proc ∷ last_proc ∷ [];
  segments = record { procs = first_proc ∷ my_proc ∷ [] } ∷ record { procs = last_proc ∷ [] } ∷ [];
}

abbrev pub ring_id : MembershipId
ring_id = record { proc_id = 1; time = 5 }

abbrev pub other_ring : MembershipId
other_ring = record { proc_id = 3; time = 4 }

abbrev pub all_members : MembersInfo
all_members = record { num_members = 3; num_pending = 2; members = 1 ∷ 2 ∷ 3 ∷ [] }

abbrev pub memb_in : State → Memb
memb_in st = record {
  state = st;
  token_alive = true;
  membership = conf;
  membership_id = ring_id;
  future_membership = conf;
  future_membership_id = other_ring;
  commit_set = all_members;
  future_commit_set = all_members;
  trans_membership = conf;
  trans_memb_id = ring_id;
  f_trans_memb_time = 6;
  commit_membership = conf;
  reg_membership = conf;
  just_installed = false;
  transitional = false;
  foreign_found = false;
}

abbrev pub header : ℕ → ℕ → PacketHeader
header type seq = record {
  type = type;
  transmiter_id = 1;
  proc_id = 1;
  memb_id = ring_id;
  seq = seq;
  token_round = 0;
  conf_hash = 0;
  data_len = 2;
  frag_index = negsuc 0;
  frag_len = pos 2;
}

abbrev pub slot : ℕ → ℕ → ℕ → PacketInfo
slot type exist seq = record {
  head = header type seq;
  body = 7 ∷ 8 ∷ [];
  exist = exist;
  proc_index = 0;
}

abbrev pub slots : ℕ → PacketInfo
slots i =
    if i == 1
    then slot 8 1 1
    else if i == 2
    then slot 8 1 2
    else if i == 3
    then slot 2 2 3
    else if i == 4
    then slot 16 1 4
    else slot 0 0 0

abbrev pub packet : ℕ → Packet
packet seq = record { head = header 8 seq; body = 7 ∷ 8 ∷ [] }

abbrev pub token : ℕ → ℕ → Token
token type aru = record {
  type = type;
  transmiter_id = 1;
  proc_id = 1;
  memb_id = ring_id;
  seq = 4;
  aru = aru;
  aru_last_id = 1;
  flow_control = pos 5;
  rtr_len = 0;
  conf_hash = 0;
}

abbrev pub mess : Scatter
mess = record { buf = 1 ∷ 2 ∷ 3 ∷ []; len = 3 } ∷ []

abbrev pub down : DownLink
down = record { type = 8; mess = mess }

abbrev pub state : Prot
state = record {
  my = my_proc;
  my_index = 1;
  conf = conf;
  memb = memb_in State.op;
  flow = record {
    window = pos 20;
    personal_window = pos 10;
    accelerated_ring = true;
    accelerated_window = pos 2;
  };
  packets = slots;
  up_queue = λ i. none;
  down_queue = record { links = down ∷ down ∷ []; cur_element = 0 };
  send_queue = packet 8 ∷ packet 9 ∷ [];
  aru = 2;
  my_aru = 4;
  highest_seq = 4;
  highest_fifo_seq = 4;
  last_discarded = 0;
  last_delivered = 0;
  last_seq = 0;
  token_rounds = 7;
  received_token_rounds = 7;
  token_counter = 0;
  token_has_priority = false;
  prev_proc_id = 1;
  last_token = token 0 3;
  last_num_retrans = 1;
  last_num_sent = 2;
  delivery_threshold = 1;
  need_conf_reload = false;
  in_reload_singleton = false;
  wide_network = false;
  gstate = 1;
  handed_up = [];
  out = [];
}

abbrev pub run : Option Prot → Prot
run none = state
run (some s) = s
