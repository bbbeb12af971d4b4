-- ===== src/Prot/Laws/Send.antt =====
-- The order and the bounds of sending, of daemon/protocol.c.
use java_spread_assignment.Base.{
  ℕ, zero, suc, ◌+◌, ◌≤◌, ◌≡◌, ◌≢◌, refl, sym, ap, ◌∙◌, true, false, List, [], ◌∷◌, ◌++◌, arith,
  length, length-append, inl, inr, Bool-cases, take, drop, length-drop,
}
use java_spread_assignment.Base.Int.{pos, ◌+ℤ◌, ◌-ℤ◌}
use java_spread_assignment.Memb.{State, is_evs}
use java_spread_assignment.Prot.State.{Packet, Effect, Prot, net_bcast}
use java_spread_assignment.Prot.Send.{
  bcast, send_queued, num_pack_to_send, queue_bcast, flush_bcast, sends_at_once,
}
use java_spread_assignment.Prot.Laws.Slots.{is_evs-false}

-- Packets that go out one after another, with the number of the round.
abbrev pub wire : ℕ → List Packet → List Effect → List Effect
wire round [] out = out
wire round (p ∷ ps) out =
    wire round ps (net_bcast (record p { head = record p.head { token_round = round } }) ∷ out)

wire-append :
    (round : ℕ) (ps qs : List Packet) (out : List Effect)
    → wire round (ps ++ qs) out ≡ wire round qs (wire round ps out)
wire-append round [] qs out = refl
wire-append round (p ∷ ps) qs out = wire-append round ps qs _

pub send_queued_lem :
    (n : ℕ) (ps : List Packet) (s : Prot)
    → send_queued n ps s
      ≡ record s { send_queue = drop n ps; out = wire s.token_rounds (take n ps) s.out }
unfolding send_queued bcast
send_queued_lem zero ps s = refl
send_queued_lem (suc n) [] s = refl
send_queued_lem (suc n) (p ∷ ps) s = send_queued_lem n ps (bcast p s)

-- What sending in order from a queue leaves: the first packets are out, the others queued.
pub record InOrder (ps : List Packet) (s t : Prot) (k : ℕ) : Type 0 where
  pub sent : t.out ≡ wire s.token_rounds (take k ps) s.out
  pub queued : t.send_queue ≡ drop k ps

take-whole {ℓ} : {A : Type ℓ} (xs : List A) → take (length xs) xs ≡ xs
take-whole [] = refl
take-whole (x ∷ xs) = ap (λ l. x ∷ l) (take-whole xs)

drop-whole {ℓ} : {A : Type ℓ} (xs : List A) → drop (length xs) xs ≡ []
drop-whole [] = refl
drop-whole (x ∷ xs) = drop-whole xs

take-short {ℓ} :
    {A : Type ℓ} (k : ℕ) (xs ys : List A) → k ≤ length xs → take k (xs ++ ys) ≡ take k xs
take-short zero xs ys h = refl
take-short (suc k) [] ys h = elim h [ ]
take-short (suc k) (x ∷ xs) ys h = ap (λ l. x ∷ l) (take-short k xs ys (omega arith))

drop-short {ℓ} :
    {A : Type ℓ} (k : ℕ) (xs ys : List A) → k ≤ length xs → drop k (xs ++ ys) ≡ drop k xs ++ ys
drop-short zero xs ys h = refl
drop-short (suc k) [] ys h = elim h [ ]
drop-short (suc k) (x ∷ xs) ys h = drop-short k xs ys (omega arith)

take-snoc {ℓ} :
    {A : Type ℓ} (xs : List A) (y : A) → take (suc (length xs)) (xs ++ (y ∷ [])) ≡ xs ++ (y ∷ [])
take-snoc [] y = refl
take-snoc (x ∷ xs) y = ap (λ l. x ∷ l) (take-snoc xs y)

drop-snoc {ℓ} : {A : Type ℓ} (xs : List A) (y : A) → drop (suc (length xs)) (xs ++ (y ∷ [])) ≡ []
drop-snoc [] y = refl
drop-snoc (x ∷ xs) y = drop-snoc xs y

num-le : (s : Prot) → num_pack_to_send s ≤ length s.send_queue
unfolding num_pack_to_send
num-le s = ground arith

num-all : (s : Prot) → sends_at_once s ≡ true → num_pack_to_send s ≡ length s.send_queue
unfolding num_pack_to_send sends_at_once ◌+ℤ◌ ◌-ℤ◌
num-all s h = ground arith

-- `Prot_queue_bcast` sends packets in the order in which they were created: what goes out is a first
-- part of the queue with the new packet at its end, and the rest is the new queue.
pub queue_bcast_order :
    (p : Packet) (s : Prot) → (k : ℕ) × InOrder (s.send_queue ++ (p ∷ [])) s (queue_bcast p s) k
unfolding queue_bcast
queue_bcast_order p s = elim (Bool-cases (sends_at_once s)) [
  | inl once ↦ (
    suc (length s.send_queue),
    rw once (
        rw (num-all s once, send_queued_lem)
          (record {
            sent =
                ap (λ l. wire s.token_rounds (p ∷ []) (wire s.token_rounds l s.out))
                  (take-whole s.send_queue)
                ∙ sym (wire-append s.token_rounds s.send_queue (p ∷ []) s.out)
                ∙ ap (λ l. wire s.token_rounds l s.out) (sym (take-snoc s.send_queue p));
            queued = drop-whole s.send_queue ∙ sym (drop-snoc s.send_queue p);
          })),
  )
  | inr later ↦ (
    num_pack_to_send s,
    rw later (
        rw send_queued_lem (record {
          sent =
              ap (λ l. wire s.token_rounds l s.out)
                (sym (take-short (num_pack_to_send s) s.send_queue (p ∷ []) (num-le s)));
          queued = sym (drop-short (num_pack_to_send s) s.send_queue (p ∷ []) (num-le s));
        })),
  )
]

not-at-once :
    (s : Prot) (w : ℕ)
    → s.flow.accelerated_ring ≡ true
    → s.flow.accelerated_window ≡ pos (suc w)
    → is_evs s.memb.state ≡ false
    → sends_at_once s ≡ false
unfolding sends_at_once
not-at-once s w ring window evs = rw (ring, window, evs)

num-ge :
    (s : Prot) (w : ℕ)
    → s.flow.accelerated_ring ≡ true
    → s.flow.accelerated_window ≡ pos (suc w)
    → is_evs s.memb.state ≡ false
    → length s.send_queue ≤ w + num_pack_to_send s
unfolding num_pack_to_send ◌+ℤ◌ ◌-ℤ◌
num-ge s w ring window evs = ground arith

-- With a window of at least one packet on the accelerated ring, outside a membership change, the
-- queue is never longer than the window after `Prot_queue_bcast`, whatever its length was.
pub queue_bcast_window :
    (p : Packet) (s : Prot) (w : ℕ)
    → s.flow.accelerated_ring ≡ true
    → s.flow.accelerated_window ≡ pos (suc w)
    → s.memb.state ≢ State.evs
    → length (queue_bcast p s).send_queue ≤ suc w
unfolding queue_bcast
queue_bcast_window p s w ring window state =
    let evs : is_evs s.memb.state ≡ false = is_evs-false s.memb.state state in
    rw (not-at-once s w ring window evs) (
      rw send_queued_lem (
        omega (
          arith,
          length-append (drop (num_pack_to_send s) s.send_queue) (p ∷ []),
          length-drop (num_pack_to_send s) s.send_queue,
          num-ge s w ring window evs,
        )))

-- `Prot_flush_bcast` sends the whole queue in order and leaves it empty.
pub flush_bcast_order :
    (s : Prot)
    → ((flush_bcast s).out ≡ wire s.token_rounds s.send_queue s.out)
      × ((flush_bcast s).send_queue ≡ [])
unfolding flush_bcast
flush_bcast_order s =
    rw (send_queued_lem (length s.send_queue) s.send_queue s)
      (ap (λ l. wire s.token_rounds l s.out) (take-whole s.send_queue), drop-whole s.send_queue)
