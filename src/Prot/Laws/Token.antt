-- ===== src/Prot/Laws/Token.antt =====
-- What a daemon does to the token, and what it learns from it: daemon/protocol.c.
use java_spread_assignment.Base.{
  ℕ, zero, suc, ◌+◌, ◌-◌, ◌≤◌, ◌≡◌, ◌≢◌, refl, sym, ap, ◌∙◌, Bool, true, false, List, ◌∷◌, some,
  ◌==◌, ltb, if◌then◌else◌, arith, ◌⊎◌, inl, inr, ◌&&◌, Bool-cases,
}
use java_spread_assignment.Base.Int.{ℤ, pos, negsuc, ◌+ℤ◌, ◌-ℤ◌, ◌≤ℤ◌, int_laws}
use java_spread_assignment.Base.Seqs.{some-eq, All, range_from}
use java_spread_assignment.NetTypes.{get_arq, set_arq, get_retrans, set_retrans}
use java_spread_assignment.Prot.State.{
  PacketInfo, Effect, Event, Delay, RingRtr, Token, Prot, entry,
}
use java_spread_assignment.Prot.Frag.{int16_bits}
use java_spread_assignment.Prot.Send.{flush_bcast}
use java_spread_assignment.Prot.Hurry.{leader_id, to_hold_token}
use java_spread_assignment.Prot.Bcast.{advance_aru, raise_my_aru}
use java_spread_assignment.Prot.Token.{
  stamp_token, next_arq, send_token, set_timers, update_aru, count_load, to_int16, check_arq,
}
use java_spread_assignment.Prot.Laws.Send.{send_queued_lem}

-- How far `My_aru` is raised.
pub record Raised (n : ℕ) (f : ℕ → PacketInfo) (from to k : ℕ) : Type 0 where
  pub by : to ≡ from + k
  pub within : k ≤ n
  pub there : All (λ (j : ℕ). (f (entry j)).exist ≢ 0) (range_from (suc from) k)
  pub stop : (k ≡ n) ⊎ ((f (entry (suc to))).exist ≡ 0)

pub advance_aru-Raised :
    (n : ℕ) (f : ℕ → PacketInfo) (from : ℕ) → (k : ℕ) × Raised n f from (advance_aru n f from) k
unfolding advance_aru
advance_aru-Raised zero f from =
    (0, record { by = omega arith; within = omega arith; there = tt; stop = inl refl })
advance_aru-Raised (suc n) f from = elim (Bool-cases ((f (entry (suc from))).exist == 0)) [
  | inl e ↦ (
    0,
    rw e (record { by = omega arith; within = omega arith; there = tt; stop = inr (ground arith) }),
  )
  | inr e ↦
      let (k, r) = advance_aru-Raised n f (suc from) in
      (
        suc k,
        rw e (record {
          by = omega (arith, r.by);
          within = omega (arith, r.within);
          there = (ground arith, r.there);
          stop = next r.stop;
        }),
      )
]
  where
    next : {A : Type 0} {k : ℕ} → (k ≡ n) ⊎ A → (suc k ≡ suc n) ⊎ A
    next (inl e) = inl (ap suc e)
    next (inr a) = inr a

-- A daemon raises `My_aru` over exactly the packets that it has: every slot up to the new value is
-- filled, and the value is `Highest_seq`, or the next slot is empty.
pub raise_my_aru_lem :
    (s : Prot)
    → s.my_aru ≤ s.highest_seq
    → (k : ℕ) × Raised (s.highest_seq - s.my_aru) s.packets s.my_aru (raise_my_aru s).my_aru k
unfolding raise_my_aru
raise_my_aru_lem s h = advance_aru-Raised (s.highest_seq - s.my_aru) s.packets s.my_aru

stamp_token-aru : (tok : Token) (s : Prot) → (stamp_token tok s).aru ≤ s.my_aru
unfolding stamp_token
stamp_token-aru tok s = ground arith

-- Sending the token, setting the timers and emptying the queue leave these variables.
record Kept (s t : Prot) : Type 0 where
  aru : t.aru ≡ s.aru
  my_aru : t.my_aru ≡ s.my_aru
  last_token : t.last_token ≡ s.last_token
  memb : t.memb ≡ s.memb

send_token-out :
    (l : Bool) (tok : Token) (body : List RingRtr) (s : Prot)
    → (o : List Effect) × (send_token l tok body s ≡ record s { out = o })
unfolding send_token
send_token-out l tok body s = elim (Bool-cases (l && to_hold_token s)) [
  | inl hold ↦ (s.out, rw hold)
  | inr send ↦ elim (Bool-cases (ltb 1 (get_retrans tok.type))) [
    | inl many ↦ (one ∷ one ∷ one ∷ s.out, rw (send, many))
    | inr once ↦ (one ∷ s.out, rw (send, once))
  ]
]
  where
    one : Effect
    one = Effect.net_send_token tok body

set_timers-out :
    (l : Bool) (s : Prot)
    → (o : List Effect) × (set_timers l s ≡ record s { token_rounds = suc s.token_rounds; out = o })
unfolding set_timers
set_timers-out true s = (loss ∷ hurry ∷ s.out, refl)
  where
    loss : Effect
    loss = Effect.e_queue Event.token_loss Delay.token_timeout

    hurry : Effect
    hurry = Effect.e_queue Event.token_hurry Delay.hurry_timeout
set_timers-out false s = (Effect.e_queue Event.token_loss Delay.token_timeout ∷ s.out, refl)

sending-Kept :
    (l : Bool) (tok : Token) (body : List RingRtr) (s : Prot)
    → Kept s (flush_bcast (set_timers l (send_token l tok body s)))
unfolding flush_bcast
sending-Kept l tok body s =
    let (o, sent) = send_token-out l tok body s in
    let (o', timed) = set_timers-out l (send_token l tok body s) in
    rw (send_queued_lem, timed, sent)
      (record { aru = refl; my_aru = refl; last_token = refl; memb = refl })

stamped-le : (l : Bool) (tok : Token) (s : Prot) → (next_arq l (stamp_token tok s)).aru ≤ s.my_aru
unfolding next_arq
stamped-le true tok s = stamp_token-aru tok s
stamped-le false tok s = stamp_token-aru tok s

update-safe :
    (tok : Token) (s v t : Prot)
    → Kept s v
    → tok.aru ≤ s.my_aru
    → update_aru tok v ≡ some t
    → (s.aru ≤ t.aru) × (t.aru ≤ t.my_aru) × (t.my_aru ≡ s.my_aru) × (t.aru ≤ s.last_token.aru)
unfolding update_aru
update-safe tok s v t k low h =
    let new : ℕ = if ltb v.last_token.aru tok.aru then v.last_token.aru else tok.aru in
    let last_aru : v.last_token.aru ≡ s.last_token.aru = ap (λ (x : Token). x.aru) k.last_token in
    elim (Bool-cases (ltb new v.aru)) [
      | inl lowered ↦ cc (rw lowered at h)
      | inr fine ↦ updated new (ground arith) (ground arith) (ground arith) last_aru (rw fine at h)
    ]
  where
    updated :
        (new : ℕ)
        → v.aru ≤ new
        → new ≤ tok.aru
        → new ≤ v.last_token.aru
        → v.last_token.aru ≡ s.last_token.aru
        → some (record v {
          aru = new;
          token_counter = if v.highest_seq == new then suc v.token_counter else 0;
          last_token = tok;
        })
          ≡ some t
        → (s.aru ≤ t.aru) × (t.aru ≤ t.my_aru) × (t.my_aru ≡ s.my_aru) × (t.aru ≤ s.last_token.aru)
    updated new up under last last_aru e =
        let levelled : t ≡ record v {
          aru = new;
          token_counter = if v.highest_seq == new then suc v.token_counter else 0;
          last_token = tok;
        } =
          cc in
        let aru : t.aru ≡ new = ap (λ (x : Prot). x.aru) levelled in
        let my_aru : t.my_aru ≡ v.my_aru = ap (λ (x : Prot). x.my_aru) levelled in
        (omega arith, omega arith, omega arith, omega arith)

update_aru-memb : (tok : Token) (v t : Prot) → update_aru tok v ≡ some t → t.memb ≡ v.memb
unfolding update_aru
update_aru-memb tok v t h =
    elim (Bool-cases
      (ltb (if ltb v.last_token.aru tok.aru then v.last_token.aru else tok.aru) v.aru)) [
        | inl lowered ↦ cc (rw lowered at h)
        | inr fine ↦ sym (ap (λ (x : Prot). x.memb) (some-eq (rw fine at h)))
      ]

-- The step of a round that sends the token and updates `Aru`.
pub update_aru-bounds :
    (l : Bool) (tok : Token) (body : List RingRtr) (s t : Prot)
    → let sent = next_arq l (stamp_token tok s) in
      update_aru sent (flush_bcast (set_timers l (send_token l sent body s))) ≡ some t
      → (s.aru ≤ t.aru)
        × (t.aru ≤ t.my_aru)
        × (t.my_aru ≡ s.my_aru)
        × (t.aru ≤ s.last_token.aru)
        × (t.memb ≡ s.memb)
unfolding update_aru
update_aru-bounds l tok body s t h =
    let sent = next_arq l (stamp_token tok s) in
    let v = flush_bcast (set_timers l (send_token l sent body s)) in
    let k = sending-Kept l sent body s in
    let (up, own, kept, last) = update-safe sent s v t k (stamped-le l tok s) h in
    (up, own, kept, last, update_aru-memb sent v t h ∙ k.memb)

to_int16-in_range : (z : ℤ) → negsuc 32767 ≤ℤ z → z ≤ℤ pos 32767 → to_int16 z ≡ z
unfolding to_int16 int16_bits
to_int16-in_range (pos n) h k = ground arith
to_int16-in_range (negsuc n) h k = ground arith

-- The load in the token is that of the other daemons and this daemon's part, which is replaced: what
-- it put in the last time is out, and this round's retransmissions and new packets are in, where the
-- sum fits an int16.
pub count_load_replaces :
    (num_retrans num_sent : ℕ) (tok : Token) (s : Prot) (others : ℤ)
    → tok.flow_control ≡ others +ℤ pos s.last_num_retrans +ℤ pos s.last_num_sent
    → negsuc 32767 ≤ℤ others +ℤ pos num_retrans +ℤ pos num_sent
    → others +ℤ pos num_retrans +ℤ pos num_sent ≤ℤ pos 32767
    → let (tok', s') = count_load num_retrans num_sent tok s in
      tok'.flow_control ≡ others +ℤ pos s'.last_num_retrans +ℤ pos s'.last_num_sent
unfolding count_load
count_load_replaces r n tok s others e lo hi =
    let same : tok.flow_control -ℤ pos s.last_num_retrans -ℤ pos s.last_num_sent +ℤ pos r +ℤ pos n
        ≡ others +ℤ pos r +ℤ pos n =
      rw e (omega int_laws) in
    rw same (to_int16-in_range (others +ℤ pos r +ℤ pos n) lo hi)

next_arq-ne : (tok : Token) → get_arq tok.type ≢ get_arq (next_arq true tok).type
unfolding next_arq get_arq set_arq set_retrans
next_arq-ne tok = omega arith

check_arq-held :
    (tok : Token) (s : Prot) (first : ℕ)
    → leader_id s ≡ some first
    → s.last_token.type ≡ (next_arq (first == s.my.id) tok).type
    → check_arq tok s ≡ some (false, s)
unfolding check_arq
check_arq-held tok s first e same = elim (Bool-cases (first == s.my.id)) [
  | inl mine ↦
      let moved : get_arq s.last_token.type ≡ get_arq (next_arq true tok).type =
        ap get_arq (rw mine at same) in
      let differ : (get_arq tok.type == get_arq s.last_token.type) ≡ false =
        rw moved (ground (arith, next_arq-ne tok)) in
      rw (e, mine, differ)
  | inr other ↦
      let kept : s.last_token.type ≡ (next_arq false tok).type = rw other at same in
      let arq : (get_arq tok.type == get_arq s.last_token.type) ≡ true =
        let q : get_arq s.last_token.type ≡ get_arq tok.type = unfold next_arq in ap get_arq kept in
        ground arith in
      let retrans : ltb (get_retrans s.last_token.type) (get_retrans tok.type) ≡ false =
        let q : get_retrans s.last_token.type ≡ get_retrans tok.type =
          unfold next_arq in ap get_retrans kept in
        ground arith in
      rw (e, other, arq, retrans)
]

update_aru-last : (tok : Token) (v t : Prot) → update_aru tok v ≡ some t → t.last_token ≡ tok
unfolding update_aru
update_aru-last tok v t h =
    elim (Bool-cases
      (ltb (if ltb v.last_token.aru tok.aru then v.last_token.aru else tok.aru) v.aru)) [
        | inl lowered ↦ cc (rw lowered at h)
        | inr fine ↦ sym (ap (λ (x : Prot). x.last_token) (some-eq (rw fine at h)))
      ]

next_arq-stamp :
    (l : Bool) (tok : Token) (s : Prot)
    → (next_arq l (stamp_token tok s)).type ≡ (next_arq l tok).type
unfolding next_arq stamp_token
next_arq-stamp true tok s = ground arith
next_arq-stamp false tok s = ground arith

-- A token is used once: when a daemon has stamped a token and made it its last one, with the ARQ
-- number moved on if the daemon is the leader, then the same token is swallowed if it comes again,
-- and the daemon's state stays as it is.
pub token_used_once :
    (tok : Token) (s v t : Prot) (first : ℕ)
    → leader_id t ≡ some first
    → update_aru (next_arq (first == t.my.id) (stamp_token tok s)) v ≡ some t
    → check_arq tok t ≡ some (false, t)
token_used_once tok s v t first e h =
    check_arq-held tok t first e (
      ap (λ (x : Token). x.type) (update_aru-last _ v t h)
      ∙ next_arq-stamp (first == t.my.id) tok s)
