-- ===== src/Network.antt =====
-- daemon/network.c: where a daemon sends packets and the token, and which of the datagrams that
-- arrive it takes. A datagram goes out as a value of `Send`. An address (`spu_addr`, of a library
-- outside the sources) is opaque: `Addressing` is what the code uses of it. The sockets of
-- `Net_init` are left out, and `DL_sendto_gen` is an argument that gives its result.
pub mod Sending
pub mod Receiving
pub mod Laws
use java_spread_assignment.Base.{
  ℕ, zero, suc, ◌+◌, ◌-◌, Bool, true, false, not, ◌||◌, List, [], ◌∷◌, ◌++◌, Option, none, some,
  ◌==◌, ltb, if◌then◌else◌, length, get_elem?,
}
use java_spread_assignment.Base.Int.{ℤ, pos}
use java_spread_assignment.Base.Seqs.{◌>>=◌}
use java_spread_assignment.Conf.{
  Proc, Segment, Configuration, num_procs, num_segments, id_in_seg, proc_by_id_in_conf, seg_at,
  take_segs,
}
use java_spread_assignment.Prot.State.{Packet, Token}

-- The address of a process, those of a segment, the address one port further up, and
-- `spu_addr_ip_cmp` without ports as a test for equality.
pub record Addressing (Addr : Type 0) : Type 0 where
  pub proc_addr : Proc → Addr
  pub seg_addrs : ℕ → List Addr
  pub next_port : Addr → Addr
  pub same_ip : Addr → Addr → Bool

-- The static variables of the file. `conf` is `Cn`; the last two are states of configuration.c.
pub record Network (Addr : Type 0) : Type 0 where
  pub my : Proc
  pub conf : Configuration
  pub net_membership : Configuration
  pub segment_leader : Bool
  pub send_addrs : List Addr
  pub token_addr : Addr
  pub bcast_needed : Bool
  pub bcast_addrs : List Addr
  pub partition : ℕ → ℤ
  pub partition_my_index : ℕ
  pub dangerous_monitor : Bool
  pub in_reload_singleton : Bool

pub data Send (Addr : Type 0) : Type 0 where
  datagram : Addr → Packet → Send Addr
  token_datagram : Addr → Token → List ℕ → Send Addr

abbrev pub max_interfaces_proc : ℕ
max_interfaces_proc = 10

abbrev pub max_addrs_segment : ℕ
max_addrs_segment = 5

-- The loops over `Partition` reach as far as the configuration has processes.
abbrev pub assign : ℕ → (ℕ → ℤ) → (ℕ → ℤ) → ℕ → ℤ
assign size new old i = if ltb i size then new i else old i

unfoldable pub clear_partition : {Addr : Type 0} → Network Addr → Network Addr
clear_partition n = record n { partition = assign (num_procs n.conf) (λ _. pos 0) n.partition }

unfoldable pub set_partition : {Addr : Type 0} → (ℕ → ℤ) → Network Addr → Network Addr
set_partition new_partition n =
    if n.in_reload_singleton
    then n
    else record n { partition = assign (num_procs n.conf) new_partition n.partition }

-- Whether a broadcast is needed, which may not change from no to yes: the sockets would be missing.
-- The first argument is the old answer, if there was one.
unfoldable pub reload_bcast : Option Bool → Bool → Option Bool
reload_bcast (some false) true = none
reload_bcast (some false) false = some false
reload_bcast (some true) b = some b
reload_bcast none b = some b

-- `num_if` is the number of this daemon's interfaces.
unfoldable pub signal_conf_reload :
    {Addr : Type 0}
    → Addressing Addr
    → Option Bool
    → ℕ
    → Proc
    → Configuration
    → Network Addr
    → Option (Network Addr)
unfolding clear_partition reload_bcast
signal_conf_reload a old_bcast_needed num_if my conf n = proc_by_id_in_conf conf my.id >>= λ found.
    if ltb max_interfaces_proc num_if || ltb max_addrs_segment (length (a.seg_addrs my.seg_index))
    then none
    else reload_bcast old_bcast_needed (ltb 1 (length (seg_at conf.segments my.seg_index).procs))
      >>= λ needed. some (record (clear_partition (record n { my = my; conf = conf })) {
        partition_my_index = found.0;
        bcast_addrs = a.seg_addrs my.seg_index;
        bcast_needed = needed;
      })

-- The loop of `Net_set_membership`: the addresses found so far, and how many of them stand before
-- this daemon's segment.
abbrev pub Targets : Type 0 → Type 0
Targets Addr = List Addr × Option ℕ

unfoldable pub add_target : {Addr : Type 0} → Addressing Addr → List Proc → List Addr → List Addr
add_target a [] addrs = addrs
add_target a (p ∷ ps) addrs = addrs ++ (a.proc_addr p ∷ [])

unfoldable pub visit :
    {Addr : Type 0} → Addressing Addr → ℕ → ℕ → Segment → Targets Addr → Targets Addr
unfolding add_target
visit a mine i s (addrs, next) =
    if i == mine then (addrs, some (length addrs)) else (add_target a s.procs addrs, next)

unfoldable pub targets_from :
    {Addr : Type 0} → Addressing Addr → ℕ → ℕ → List Segment → Targets Addr → Targets Addr
targets_from a mine i [] found = found
targets_from a mine i (s ∷ ss) found = targets_from a mine (suc i) ss (visit a mine i s found)

-- Where the token goes: the process at `next` of this segment, or else a first process elsewhere.
unfoldable pub token_target :
    {Addr : Type 0} → Addressing Addr → Segment → ℕ → List Addr → ℕ → Option Addr
token_target a seg index addrs next =
    if ltb index (length seg.procs - 1)
    then (get_elem? seg.procs (suc index) >>= λ p. some (a.proc_addr p))
    else if length addrs == 0
    then (get_elem? seg.procs 0 >>= λ p. some (a.proc_addr p))
    else if length addrs == next
    then get_elem? addrs 0
    else get_elem? addrs next

-- The rest of it, for this daemon's segment, its index there, and what the loop found; `none` where
-- the daemon is not in its segment, and at the failed assertion.
unfoldable pub install_membership :
    {Addr : Type 0}
    → Addressing Addr
    → Configuration
    → Segment
    → Option ℕ
    → Targets Addr
    → Network Addr
    → Option (Network Addr)
install_membership a memb my_seg my_index found n = my_index >>= λ index. found.1 >>= λ next.
    token_target a my_seg index found.0 next >>= λ target. some (record n {
      net_membership = memb;
      segment_leader = index == 0;
      send_addrs = found.0;
      token_addr = a.next_port target;
    })

unfoldable pub set_membership :
    {Addr : Type 0} → Addressing Addr → Configuration → Network Addr → Option (Network Addr)
unfolding install_membership
set_membership a memb n =
    let my_seg = seg_at memb.segments n.my.seg_index in
    let segs = take_segs (num_segments n.conf) memb.segments in
    install_membership a memb my_seg (id_in_seg my_seg n.my.id)
      (targets_from a n.my.seg_index 0 segs ([], none)) n
