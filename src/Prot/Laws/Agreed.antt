-- ===== src/Prot/Laws/Agreed.antt =====
-- The order of delivery: `Deliver_agreed_packets` of daemon/protocol.c.
use java_spread_assignment.Base.{
  ℕ, zero, suc, ◌+◌, ◌-◌, ◌≤◌, ◌<◌, ◌≡◌, ◌≢◌, refl, sym, ap, ◌∙◌, Bool, true, false, List, ◌∷◌,
  Option, some, ◌==◌, ltb, leb, if◌then◌else◌, arith, ◌⊎◌, inl, inr, Bool-cases,
}
use java_spread_assignment.Base.Seqs.{>>=-eq-some, All, range_from}
use java_spread_assignment.NetTypes.{is_safe, agreed_type, regular_bits}
use java_spread_assignment.Memb.{State}
use java_spread_assignment.Prot.State.{PacketInfo, Scatter, Effect, Prot, entry, put}
use java_spread_assignment.Prot.Deliver.{
  deliver_packet, deliver_agreed_one, deliver_agreed_loop, deliver_agreed_packets, go_on,
}
use java_spread_assignment.Prot.Laws.Slots.{
  deliver_packet-handed, handed, hand_over, hand_over-cong, entry_ne, entry_ne_range, is_evs-false,
}

-- What one round of a delivery loop does to slot `i` and to nothing else.
pub record Passed (i : ℕ) (s t : Prot) : Type 0 where
  pub done : (t.packets (entry i)).exist ≡ 2
  pub others : (e : ℕ) → e ≢ entry i → t.packets e ≡ s.packets e
  pub level : t.last_delivered ≡ suc s.last_delivered
  pub order : t.handed_up ≡ (
      if (s.packets (entry i)).exist == 1
      then (s.packets (entry i)).head.seq ∷ s.handed_up
      else s.handed_up)
  pub same_aru : t.my_aru ≡ s.my_aru

-- The packet at which the loop stops.
pub record IsHeld (p : PacketInfo) : Type 0 where
  pub waits : p.exist ≡ 1
  pub safe : is_safe p.head.type ≡ true

Passed-handed :
    (i : ℕ) (s : Prot) (q : ℕ → Option Scatter) (o : List Effect)
    → (s.packets (entry i)).exist ≡ 1
    → Passed i s (record (handed (entry i) q o s) { last_delivered = suc s.last_delivered })
unfolding put
Passed-handed i s q o x = record {
  done = ground arith;
  others = λ e ne. ground arith;
  level = refl;
  order = ground arith;
  same_aru = refl;
}

-- A slot whose packet was delivered early is only counted.
Passed-early :
    (i : ℕ) (s : Prot)
    → (s.packets (entry i)).exist ≡ 2
    → Passed i s (record s { last_delivered = suc s.last_delivered })
Passed-early i s x = record {
  done = x;
  others = λ e ne. refl;
  level = refl;
  order = rw x;
  same_aru = refl;
}

Passed-delivered :
    (i : ℕ) (s t : Prot)
    → (s.packets (entry i)).exist ≡ 1
    → deliver_packet (entry i) s ≡ some t
    → Passed i s (record t { last_delivered = suc t.last_delivered })
Passed-delivered i s t x h =
    let (q, o, shape) = deliver_packet-handed (entry i) s t h in rw shape (Passed-handed i s q o x)

Passed-result :
    (i : ℕ) (s t : Prot) (r : Bool × Prot)
    → ◌≡◌ {A = Option (Bool × Prot)} (some (true, t)) (some r)
    → Passed i s t
    → (r.0 ≡ true) × Passed i s r.1
Passed-result i s t r e p = let q : r ≡ (true, t) = cc in (ap (λ (x : Bool × Prot). x.0) q, rw q p)

-- One round stops at a safe packet that waits, with nothing changed, or passes one packet.
pub deliver_agreed_one-lem :
    (i : ℕ) (s : Prot) (r : Bool × Prot)
    → deliver_agreed_one i s ≡ some r
    → ((r ≡ (false, s)) × IsHeld (s.packets (entry i))) ⊎ ((r.0 ≡ true) × Passed i s r.1)
unfolding deliver_agreed_one
deliver_agreed_one-lem i s r h = elim (Bool-cases ((s.packets (entry i)).exist == 1)) [
  | inl x ↦ elim (Bool-cases (is_safe (s.packets (entry i)).head.type)) [
    | inl safe ↦ inl (cc (rw (x, safe) at h), record { waits = ground arith; safe = safe })
    | inr free ↦
        let (t, up, e) = >>=-eq-some (deliver_packet (entry i) s) _ (rw (x, free) at h) in
        inr (Passed-result i s _ r e (Passed-delivered i s t (ground arith) up))
  ]
  | inr y ↦ elim (Bool-cases ((s.packets (entry i)).exist == 2)) [
    | inl x ↦ elim (Bool-cases (leb agreed_type (regular_bits (s.packets (entry i)).head.type))) [
      | inl wrong ↦ cc (rw (y, x, wrong) at h)
      | inr early ↦
          inr (Passed-result i s _ r (rw (y, x, early) at h) (Passed-early i s (ground arith)))
    ]
    | inr z ↦ cc (rw (y, z) at h)
  ]
]

-- What the loop has done when it stops, `k` of its `n` rounds passed.
record Ran (n i : ℕ) (s t : Prot) (k : ℕ) : Type 0 where
  within : k ≤ n
  level : t.last_delivered ≡ s.last_delivered + k
  done : All (λ (j : ℕ). (t.packets (entry j)).exist ≡ 2) (range_from i k)
  order : t.handed_up ≡ hand_over k i s.packets s.handed_up
  stop : (k ≡ n) ⊎ IsHeld (t.packets (entry (i + k)))
  others : (e : ℕ) → All (λ (j : ℕ). e ≢ entry j) (range_from i k) → t.packets e ≡ s.packets e
  same_aru : t.my_aru ≡ s.my_aru

All-others :
    (i j k : ℕ) (s t : Prot)
    → i < j
    → j + k ≤ i + 8192
    → Passed i s t
    → All (λ (l : ℕ). t.packets (entry l) ≡ s.packets (entry l)) (range_from j k)
All-others i j zero s t h b p = tt
All-others i j (suc k) s t h b p = (
  p.others (entry j) (λ e. entry_ne i j h (omega arith) (sym e)),
  All-others i (suc j) k s t (omega arith) (omega arith) p,
)

Ran-cons :
    (n i : ℕ) (s t u : Prot) (k : ℕ)
    → suc n ≤ 8192
    → Passed i s t
    → Ran n (suc i) t u k
    → Ran (suc n) i s u (suc k)
Ran-cons n i s t u k b p r = record {
  within = omega arith;
  level = omega (arith, p.level, r.level);
  done = (
    ap (λ (p : PacketInfo). p.exist)
          (r.others (entry i) (entry_ne_range i (suc i) k (omega arith) (omega (arith, r.within))))
        ∙ p.done,
    r.done,
  );
  order =
      r.order
      ∙ ap (hand_over k (suc i) t.packets) p.order
      ∙ hand_over-cong k (suc i) t.packets s.packets _
          (All-others i (suc i) k s t (omega arith) (omega (arith, r.within)) p);
  stop = shift_stop r.stop;
  others = λ e a. r.others e a.1 ∙ p.others e a.0;
  same_aru = r.same_aru ∙ p.same_aru;
}
  where
    shift_stop :
        (k ≡ n) ⊎ IsHeld (u.packets (entry (suc i + k)))
        → (suc k ≡ suc n) ⊎ IsHeld (u.packets (entry (i + suc k)))
    shift_stop (inl e) = inl (ap suc e)
    shift_stop (inr held) = let e : i + suc k ≡ suc i + k = omega arith in inr (rw e held)

Ran-stop : (n i : ℕ) (s t : Prot) → (0 ≡ n) ⊎ IsHeld (s.packets (entry i)) → s ≡ t → Ran n i s t 0
Ran-stop n i s t stop e = rw (← e) (record {
  within = omega arith;
  level = omega arith;
  done = tt;
  order = refl;
  stop = at_start stop;
  others = λ e a. refl;
  same_aru = refl;
})
  where
    at_start : (0 ≡ n) ⊎ IsHeld (s.packets (entry i)) → (0 ≡ n) ⊎ IsHeld (s.packets (entry (i + 0)))
    at_start (inl z) = inl z
    at_start (inr held) = let e : i + 0 ≡ i = omega arith in inr (rw e held)

go_on-stop :
    (s t : Prot) (r : Bool × Prot) (next : Prot → Option Prot)
    → go_on r next ≡ some t
    → r ≡ (false, s)
    → s ≡ t
go_on-stop s t r next h e = let h' : go_on (false, s) next ≡ some t = rw e at h in cc

go_on-next :
    (t : Prot) (r : Bool × Prot) (next : Prot → Option Prot)
    → go_on r next ≡ some t
    → r.0 ≡ true
    → next r.1 ≡ some t
go_on-next t (true, u) next h e = h
go_on-next t (false, u) next h e = cc

deliver_agreed_loop-Ran :
    (n i : ℕ) (s t : Prot) → n ≤ 8192 → deliver_agreed_loop n i s ≡ some t → (k : ℕ) × Ran n i s t k
unfolding deliver_agreed_loop
deliver_agreed_loop-Ran zero i s t b h = (0, Ran-stop zero i s t (inl refl) (cc))
deliver_agreed_loop-Ran (suc n) i s t b h =
    let (r, one, rest) = >>=-eq-some (deliver_agreed_one i s) _ h in
    elim (deliver_agreed_one-lem i s r one) [
      | inl (stopped, held) ↦
          (0, Ran-stop (suc n) i s t (inr held) (go_on-stop s t r _ rest stopped))
      | inr (going, p) ↦
          let (k, ran) =
            deliver_agreed_loop-Ran n (suc i) r.1 t (omega arith) (go_on-next t r _ rest going) in
          (suc k, Ran-cons n i s r.1 t k b p ran)
    ]

-- What `Deliver_agreed_packets` did: the packets from behind `Last_delivered` on were delivered, `k`
-- of them.
pub record AgreedDelivery (s t : Prot) (k : ℕ) : Type 0 where
  pub level : t.last_delivered ≡ s.last_delivered + k
  pub bounded : t.last_delivered ≤ s.my_aru
  pub done : All (λ (j : ℕ). (t.packets (entry j)).exist ≡ 2) (range_from (suc s.last_delivered) k)
  pub order : t.handed_up ≡ hand_over k (suc s.last_delivered) s.packets s.handed_up
  pub stop : (t.last_delivered ≡ s.my_aru) ⊎ IsHeld (t.packets (entry (suc t.last_delivered)))

Ran-delivery :
    (n : ℕ) (s t : Prot) (k : ℕ)
    → s.last_delivered + n ≡ s.my_aru
    → Ran n (suc s.last_delivered) s t k
    → AgreedDelivery s t k
Ran-delivery n s t k e r = record {
  level = r.level;
  bounded = omega (arith, r.level, r.within);
  done = r.done;
  order = r.order;
  stop = at_end r.stop;
}
  where
    at_end :
        (k ≡ n) ⊎ IsHeld (t.packets (entry (suc s.last_delivered + k)))
        → (t.last_delivered ≡ s.my_aru) ⊎ IsHeld (t.packets (entry (suc t.last_delivered)))
    at_end (inl all) = inl (omega (arith, r.level))
    at_end (inr held) =
        let q : suc t.last_delivered ≡ suc s.last_delivered + k = omega (arith, r.level) in
        inr (rw q held)

-- If delivery is allowed and comes to no fatal alarm, `Deliver_agreed_packets` delivers, in the order
-- of their sequence numbers and each once, the packets behind `Last_delivered` that were not
-- delivered early; it stops at `My_aru`, or before the first safe packet, and nowhere else. The
-- window of packets is supposed to fit the slots.
pub deliver_agreed_order :
    (s t : Prot)
    → s.last_delivered < s.my_aru
    → s.my_aru ≤ s.last_delivered + 8192
    → s.memb.state ≢ State.evs
    → s.delivery_threshold ≤ agreed_type
    → deliver_agreed_packets s ≡ some t
    → (k : ℕ) × AgreedDelivery s t k
unfolding deliver_agreed_packets
deliver_agreed_order s t new window state open_ h =
    let behind : leb s.my_aru s.last_delivered ≡ false = ground arith in
    let low : ltb agreed_type s.delivery_threshold ≡ false = ground arith in
    let (k, r) =
      deliver_agreed_loop-Ran (s.my_aru - s.last_delivered) (suc s.last_delivered) s t (omega arith)
        (rw (behind, is_evs-false s.memb.state state, low) at h) in
    (k, Ran-delivery (s.my_aru - s.last_delivered) s t k (omega arith) r)
