-- ===== src/Prot/Laws/Slots.antt =====
-- What `Deliver_packet` of daemon/protocol.c changes: one slot, the up queue, the list of what is
-- handed up, and the calls of the session layer.
use java_spread_assignment.Base.{
  ℕ, zero, suc, ◌+◌, ◌≤◌, ◌<◌, ◌≡◌, ◌≢◌, refl, sym, ap, ◌∙◌, Bool, true, false, List, [], ◌∷◌,
  Option, none, some, ◌==◌, if◌then◌else◌, arith, inl, inr, Bool-cases,
}
use java_spread_assignment.Base.Seqs.{>>=-eq-some, All, range_from}
use java_spread_assignment.Memb.{State, is_evs}
use java_spread_assignment.Prot.State.{PacketInfo, Scatter, Effect, Prot, emit, entry, put}
use java_spread_assignment.Prot.Deliver
use java_spread_assignment.Prot.Deliver.{
  deliver_packet, packet_messages, push_up, up_index, emit_all, or_empty,
}

-- The state after a delivery, up to the queues of messages.
abbrev pub handed : ℕ → (ℕ → Option Scatter) → List Effect → Prot → Prot
handed e up_queue out s = record s {
  packets = put s.packets e (record (s.packets e) { exist = 2 });
  handed_up = (s.packets e).head.seq ∷ s.handed_up;
  up_queue = up_queue;
  out = out;
}

push_up-handed :
    (e : ℕ) (s : Prot)
    → (q : ℕ → Option Scatter) × (o : List Effect) × (push_up e (s.packets e) s ≡ handed e q o s)
unfolding push_up
push_up-handed e s = elim (Bool-cases (Deliver.is_negative (s.packets e).head.frag_index)) [
  | inl h ↦ (
    put s.up_queue (up_index (s.packets e)) none,
    Effect.sess_deliver_message (Deliver.chained s (s.packets e)) ∷ s.out,
    rw h,
  )
  | inr h ↦ (
    put s.up_queue (up_index (s.packets e)) (some (Deliver.chained s (s.packets e))),
    s.out,
    rw h,
  )
]

pub emit_all-out :
    (ms : List Scatter) (s : Prot) → (o : List Effect) × (emit_all ms s ≡ record s { out = o })
emit_all-out [] s = (s.out, refl)
emit_all-out (m ∷ ms) s =
    let (o, e) = emit_all-out ms (emit (Effect.sess_deliver_message m) s) in (o, e)

-- The two branches of a test whose second one fails.
pub if-eq-some {ℓ} :
    {A : Type ℓ} (b : Bool) (a t : A) → (if b then some a else none) ≡ some t → (b ≡ true) × (a ≡ t)
if-eq-some true a t h = (refl, cc)
if-eq-some false a t h = cc

pub deliver_packet-handed :
    (e : ℕ) (s t : Prot)
    → deliver_packet e s ≡ some t
    → (q : ℕ → Option Scatter) × (o : List Effect) × (t ≡ handed e q o s)
unfolding deliver_packet
deliver_packet-handed e s t h =
    let (later, _, kept) = >>=-eq-some (packet_messages (s.packets e)) _ h in
    let (_, same) = if-eq-some _ (emit_all later (push_up e (s.packets e) s)) t kept in
    let (q, o, pushed) = push_up-handed e s in
    let (o', sent) = emit_all-out later (push_up e (s.packets e) s) in
    (q, o', sym same ∙ sent ∙ ap (λ (u : Prot). record u { out = o' }) pushed)

-- The sequence numbers of the packets that are not delivered yet, put before a list, so that the
-- first of them is the deepest: the order in which `handed_up` keeps what is handed up.
abbrev pub hand_over : ℕ → ℕ → (ℕ → PacketInfo) → List ℕ → List ℕ
hand_over zero i f done = done
hand_over (suc n) i f done =
    hand_over n (suc i) f (if (f (entry i)).exist == 1 then (f (entry i)).head.seq ∷ done else done)

-- Slots of numbers less than 8192 apart are different.
pub entry_ne : (i j : ℕ) → i < j → j < i + 8192 → entry i ≢ entry j
entry_ne i j h k = omega arith

pub entry_ne_range :
    (i j k : ℕ) → i < j → j + k ≤ i + 8192 → All (λ (l : ℕ). entry i ≢ entry l) (range_from j k)
entry_ne_range i j zero h b = tt
entry_ne_range i j (suc k) h b =
    (entry_ne i j h (omega arith), entry_ne_range i (suc j) k (omega arith) (omega arith))

-- The list of what is handed up depends on the slots of its range only.
pub hand_over-cong :
    (k i : ℕ) (f g : ℕ → PacketInfo) (done : List ℕ)
    → All (λ (j : ℕ). f (entry j) ≡ g (entry j)) (range_from i k)
    → hand_over k i f done ≡ hand_over k i g done
hand_over-cong zero i f g done a = refl
hand_over-cong (suc k) i f g done (e, a) = rw e (hand_over-cong k (suc i) f g _ a)

pub is_evs-false : (st : State) → st ≢ State.evs → is_evs st ≡ false
is_evs-false State.op h = refl
is_evs-false State.seg h = refl
is_evs-false State.represented h = refl
is_evs-false State.gather h = refl
is_evs-false State.form h = refl
is_evs-false State.evs h = absurd (h refl)
