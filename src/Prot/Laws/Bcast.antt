-- ===== src/Prot/Laws/Bcast.antt =====
-- Packets from the network, `Prot_handle_bcast` of daemon/protocol.c.
use java_spread_assignment.Base.{
  ℕ, ◌≤◌, ◌<◌, ◌≡◌, ◌≢◌, refl, Bool, true, false, not, List, ◌∷◌, some, ◌==◌, ltb, leb, arith, ◌⊎◌,
  inl, inr, ◌&&◌, Bool-cases, if◌then◌else◌, ap,
}
use java_spread_assignment.Conf
use java_spread_assignment.Conf.{Proc}
use java_spread_assignment.Prot.State.{Packet, Effect, Event, Delay, Prot, entry, put}
use java_spread_assignment.Prot.Hurry.{leader_id}
use java_spread_assignment.Prot.Bcast.{
  restart_timers, handle_regular, insert_received, deliver_received, prefer_token,
}

-- A packet that the daemon has no use for: discarded already, or its slot is filled.
abbrev pub IsOld : Packet → Prot → Type 0
IsOld p s = (p.head.seq ≤ s.last_discarded) ⊎ ((s.packets (entry p.head.seq)).exist ≢ 0)

-- What is queued for a packet of the own membership where the daemon has a token: the timer of its
-- loss, and on the leader `first` that of the hurry.
abbrev pub timers_restarted : ℕ → Prot → List Effect
timers_restarted first s =
    if s.memb.token_alive
    then if first == s.my.id
      then Effect.e_queue Event.token_hurry Delay.hurry_timeout
        ∷ Effect.e_queue Event.token_loss Delay.token_timeout
        ∷ s.out
      else Effect.e_queue Event.token_loss Delay.token_timeout ∷ s.out
    else s.out

restart_timers-out :
    (s : Prot) (first : ℕ)
    → leader_id s ≡ some first
    → restart_timers s ≡ some (record s { out = timers_restarted first s })
unfolding restart_timers
restart_timers-out s first e = elim (Bool-cases s.memb.token_alive) [
  | inr dead ↦ simp dead
  | inl alive ↦ elim (Bool-cases (first == s.my.id)) [
    | inl mine ↦ simp (alive, e, mine)
    | inr other ↦ simp (alive, e, other)
  ]
]

-- A packet of the own membership that is discarded already, or whose slot is filled, changes nothing
-- and calls nothing, but that the timers of a token that the daemon has are queued anew: a packet
-- that comes twice, or late, is not inserted, delivered or handed to the membership algorithm.
pub old_packet_ignored :
    (p : Packet) (s : Prot) (first : ℕ)
    → leader_id s ≡ some first
    → IsOld p s
    → handle_regular p s ≡ some (record s { out = timers_restarted first s })
unfolding handle_regular
old_packet_ignored p s first e old =
    let timers = restart_timers-out s first e in
    elim (Bool-cases (leb p.head.seq s.last_discarded)) [
      | inl late ↦ rw (timers, late) refl
      | inr live ↦
          let filled : ((s.packets (entry p.head.seq)).exist == 0) ≡ false = ground arith in
          rw (timers, live, filled) refl
    ]

-- A packet of the next round from the previous daemon of the ring gives the token priority, on the
-- accelerated ring.
abbrev pub is_next_round : Packet → Prot → Bool
is_next_round p s =
    s.flow.accelerated_ring
    && (not s.token_has_priority
        && (ltb s.received_token_rounds p.head.token_round
            && (p.head.transmiter_id == s.prev_proc_id)))

-- The state in which a new packet stands in its slot, with the highest number counted: every field
-- that is not named is as it was.
abbrev pub with_packet : Packet → ℕ → List Effect → Prot → Prot
with_packet p index calls s = record s {
  packets =
      put s.packets (entry p.head.seq)
        (record { head = p.head; body = p.body; exist = 1; proc_index = index });
  highest_seq = if ltb s.highest_seq p.head.seq then p.head.seq else s.highest_seq;
  token_has_priority = if is_next_round p s then true else s.token_has_priority;
  out = if is_next_round p s then Effect.token_channels_first ∷ calls else calls;
}

insert_received-with_packet :
    (p : Packet) (index : ℕ) (s : Prot) → insert_received p index s ≡ with_packet p index s.out s
unfolding insert_received prefer_token
insert_received-with_packet p index s = elim (Bool-cases (is_next_round p s)) [
  | inl first ↦ simp first
  | inr stay ↦ simp stay
]

-- A packet of the own membership that is not discarded, whose slot is empty and whose sender is in
-- the configuration, is put into its slot as not yet delivered, counted in `Highest_seq`, and only
-- then is delivery tried: nothing else changes before that, but that the timers of a token that the
-- daemon has are queued anew and the first packet of a new round on an accelerated ring gives the
-- token priority.
pub new_packet-with_packet :
    (p : Packet) (s : Prot) (first index : ℕ) (sender : Proc)
    → leader_id s ≡ some first
    → s.last_discarded < p.head.seq
    → (s.packets (entry p.head.seq)).exist ≡ 0
    → Conf.proc_by_id_in_conf s.conf p.head.proc_id ≡ some (index, sender)
    → handle_regular p s
      ≡ deliver_received p.head.seq (with_packet p index (timers_restarted first s) s)
unfolding handle_regular
new_packet-with_packet p s first index sender e fresh empty known =
    let timers = restart_timers-out s first e in
    let u : Prot = record s { out = timers_restarted first s } in
    let live : leb p.head.seq s.last_discarded ≡ false = ground arith in
    let free : ((s.packets (entry p.head.seq)).exist == 0) ≡ true = ground arith in
    rw (timers, live, free, known)
      (ap (deliver_received p.head.seq) (insert_received-with_packet p index u))
