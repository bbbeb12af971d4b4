-- ===== src/Prot/Laws/Alarms.antt =====
-- The alarms of `Deliver_agreed_packets` of daemon/protocol.c.
use java_spread_assignment.Base.{
  List, ℕ, zero, suc, ◌+◌, ◌-◌, ◌≤◌, ◌≡◌, refl, Bool, true, false, none, some, inl, inr, ◌==◌, ltb,
  leb, ◌&&◌, ◌⊎◌, arith, Bool-cases, Option-cases, ◌≢◌,
}
use java_spread_assignment.Base.Int.{pos_part, neg_part}
use java_spread_assignment.NetTypes.{is_safe, agreed_type, regular_bits}
use java_spread_assignment.Memb.{State}
use java_spread_assignment.Prot.State.{Scatter, Prot, entry}
use java_spread_assignment.Prot.Deliver.{
  packet_messages, up_index, emit_all, push_up, deliver_packet, deliver_agreed_one,
  deliver_agreed_loop, deliver_agreed_packets,
}
use java_spread_assignment.Prot.Laws.Slots.{is_evs-false}
use java_spread_assignment.Prot.Laws.InOrder.{
  is_some, frag_count, next_count, slot_in_order, in_order, in_order-cong, All-range,
  in_order-delivered,
}

deliver_packet-none :
    (e : ℕ) (s : Prot)
    → (is_some (packet_messages (s.packets e))
        && (frag_count s (up_index (s.packets e)) + 1
            == pos_part (s.packets e).head.frag_index + neg_part (s.packets e).head.frag_index))
      ≡ false
    → deliver_packet e s ≡ none
unfolding deliver_packet
deliver_packet-none e s h = elim (Option-cases (packet_messages (s.packets e))) [
  | inl apart ↦ simp apart
  | inr (later, apart) ↦ simp (apart, rw apart at h)
]

deliver_packet-some :
    (e : ℕ) (s : Prot)
    → (is_some (packet_messages (s.packets e))
        && (frag_count s (up_index (s.packets e)) + 1
            == pos_part (s.packets e).head.frag_index + neg_part (s.packets e).head.frag_index))
      ≡ true
    → (later : List Scatter) × (deliver_packet e s
        ≡ some (emit_all later (push_up e (s.packets e) s)))
unfolding deliver_packet
deliver_packet-some e s h = elim (Option-cases (packet_messages (s.packets e))) [
  | inl apart ↦ cc (rw apart at h)
  | inr (later, apart) ↦ (later, simp (apart, rw apart at h))
]

-- A round at a packet that waits and is not safe goes on, or comes to an alarm.
round-free :
    (i : ℕ) (s : Prot) (rest : Bool)
    → (let p = s.packets (entry i) in (p.exist == 1) ≡ true)
    → is_safe (s.packets (entry i)).head.type ≡ false
    → let p = s.packets (entry i) in
      ((deliver_agreed_one i s ≡ none) × (slot_in_order p (frag_count s (up_index p)) rest ≡ false))
      ⊎ ((later : List Scatter) × (let t = emit_all later (push_up (entry i) p s) in
            deliver_agreed_one i s
            ≡ some (true, record t { last_delivered = suc t.last_delivered }))
          × (slot_in_order p (frag_count s (up_index p)) rest ≡ rest))
unfolding deliver_agreed_one slot_in_order
round-free i s rest waits free =
    let p = s.packets (entry i) in
    let index = pos_part p.head.frag_index + neg_part p.head.frag_index in
    elim (Bool-cases (is_some (packet_messages p) && (frag_count s (up_index p) + 1 == index))) [
      | inr bad ↦ inl (
        simp (waits, free, deliver_packet-none (entry i) s bad),
        simp (
          waits,
          free,
          and_false (is_some (packet_messages p)) (frag_count s (up_index p) + 1 == index) rest bad,
        ),
      )
      | inl good ↦
          let (later, up) = deliver_packet-some (entry i) s good in
          inr (
            later,
            simp (waits, free, up),
            simp (
              waits,
              free,
              and_true (is_some (packet_messages p)) (frag_count s (up_index p) + 1 == index) rest
                  good,
            ),
          )
    ]
  where
    and_false : (a b c : Bool) → (a && b) ≡ false → (a && (b && c)) ≡ false
    and_false true b c h = rw h refl
    and_false false b c h = refl

    and_true : (a b c : Bool) → (a && b) ≡ true → (a && (b && c)) ≡ c
    and_true true b c h = rw h refl
    and_true false b c h = cc

-- A round at a packet that was delivered early only counts it.
round-early :
    (i n : ℕ) (s : Prot)
    → ((s.packets (entry i)).exist == 1) ≡ false
    → in_order n (suc i) s.packets (next_count (s.packets (entry i)) (frag_count s))
      ≡ in_order n (suc i) s.packets (frag_count s)
round-early i n s other =
    in_order-cong n (suc i) s.packets s.packets _ (frag_count s)
      (All-range _ (suc i) n (λ j a b. refl)) (λ j. simp other)

deliver_agreed_loop-in_order :
    (n i : ℕ) (s : Prot)
    → n ≤ 8192
    → is_some (deliver_agreed_loop n i s) ≡ in_order n i s.packets (frag_count s)
unfolding deliver_agreed_loop in_order
deliver_agreed_loop-in_order zero i s h = refl
deliver_agreed_loop-in_order (suc n) i s h =
    let p = s.packets (entry i) in
    let passed : List Scatter → Prot = λ later.
      let t = emit_all later (push_up (entry i) p s) in
      record t { last_delivered = suc t.last_delivered } in
    elim (Bool-cases (p.exist == 1)) [
      | inl waits ↦ elim (Bool-cases (is_safe p.head.type)) [
        | inl safe ↦ unfold deliver_agreed_one slot_in_order in simp (waits, safe)
        | inr free ↦
            elim (round-free i s (in_order n (suc i) s.packets (next_count p (frag_count s))) waits
              free) [
                | inl (alarm, bad) ↦ simp (alarm, bad)
                | inr (later, up, good) ↦ simp (
                  up,
                  good,
                  deliver_agreed_loop-in_order n (suc i) (passed later) (omega arith),
                  in_order-delivered i n s later (omega arith) (ground arith),
                )
              ]
      ]
      | inr other ↦ elim (Bool-cases (p.exist == 2)) [
        | inl early ↦ elim (Bool-cases (leb agreed_type (regular_bits p.head.type))) [
          | inl wrong ↦ unfold deliver_agreed_one slot_in_order in simp (other, early, wrong)
          | inr fine ↦
              unfold deliver_agreed_one slot_in_order in
              simp (
                other,
                early,
                fine,
                deliver_agreed_loop-in_order n (suc i)
                    (record s { last_delivered = suc s.last_delivered }) (omega arith),
                round-early i n s other,
              )
        ]
        | inr empty ↦ unfold deliver_agreed_one slot_in_order in simp (other, empty)
      ]
    ]

-- Where delivery is allowed and the window of packets fits the slots, `Deliver_agreed_packets` comes
-- to its end, with no fatal alarm and no read outside a packet's body, exactly when the slots that it
-- reaches, from behind `Last_delivered` up to `My_aru` or the first safe packet that waits, are in
-- order: none is empty, no packet of an ordered type was delivered early, no fragment has a negative
-- length, and the first fragment of each packet is the next one of its message.
pub deliver_agreed_packets-in_order :
    (s : Prot)
    → s.last_delivered ≤ s.my_aru
    → s.my_aru ≤ s.last_delivered + 8192
    → s.memb.state ≢ State.evs
    → s.delivery_threshold ≤ agreed_type
    → is_some (deliver_agreed_packets s)
      ≡ in_order (s.my_aru - s.last_delivered) (suc s.last_delivered) s.packets (frag_count s)
unfolding deliver_agreed_packets
deliver_agreed_packets-in_order s order window state open_ =
    let low : ltb agreed_type s.delivery_threshold ≡ false = ground arith in
    let calm = is_evs-false s.memb.state state in
    elim (Bool-cases (leb s.my_aru s.last_delivered)) [
      | inl nothing ↦
          let e : s.my_aru - s.last_delivered ≡ 0 = ground arith in
          unfold in_order in simp (nothing, e)
      | inr behind ↦ simp (
        behind,
        calm,
        low,
        deliver_agreed_loop-in_order (s.my_aru - s.last_delivered) (suc s.last_delivered) s
            (omega arith),
      )
    ]
