-- ===== src/Prot/Laws/InOrder.antt =====
-- The slots that `Deliver_agreed_packets` of daemon/protocol.c can pass without an alarm.
use java_spread_assignment.Base.{
  List, ℕ, zero, suc, ◌+◌, ◌≤◌, ◌<◌, ◌≡◌, refl, sym, ap, ◌∙◌, Bool, true, false, not, Option, none,
  some, inl, inr, ◌==◌, leb, ◌&&◌, ◌||◌, if◌then◌else◌, arith, length, length-append, Bool-cases,
  ◌≢◌,
}
use java_spread_assignment.Base.Int.{pos_part, neg_part}
use java_spread_assignment.Base.Seqs.{All, range_from}
use java_spread_assignment.NetTypes.{is_safe, agreed_type, regular_bits}
use java_spread_assignment.Prot.State.{PacketInfo, Scatter, Prot, entry, put}
use java_spread_assignment.Prot.Deliver.{
  packet_messages, up_index, or_empty, is_negative, chained, emit_all, push_up,
}
use java_spread_assignment.Prot.Laws.Slots.{emit_all-out, entry_ne}

abbrev pub is_some {ℓ} : {A : Type ℓ} → Option A → Bool
is_some none = false
is_some (some a) = true

-- How many fragments of an unfinished message wait at each place of the up queue.
abbrev pub frag_count : Prot → ℕ → ℕ
frag_count s j = length (or_empty (s.up_queue j))

-- These numbers after a packet.
abbrev pub after : PacketInfo → (ℕ → ℕ) → ℕ → ℕ
after p c = put c (up_index p) (if is_negative p.head.frag_index then 0 else suc (c (up_index p)))

abbrev pub next_count : PacketInfo → (ℕ → ℕ) → ℕ → ℕ
next_count p c j = if p.exist == 1 then after p c j else c j

-- One slot is in order when `waits` fragments wait at the packet's place: a packet that waits can be
-- taken apart and its first fragment is the next one of its message, one that was delivered early is
-- no ordered one, and the slot is not empty. What stands behind a safe packet that waits does not
-- matter.
unfoldable pub slot_in_order : PacketInfo → ℕ → Bool → Bool
slot_in_order p waits rest =
    if p.exist == 1
    then is_safe p.head.type
      || (is_some (packet_messages p)
          && ((waits + 1 == pos_part p.head.frag_index + neg_part p.head.frag_index) && rest))
    else (p.exist == 2) && (not (leb agreed_type (regular_bits p.head.type)) && rest)

-- The slots that `n` rounds pass from `i` on are in order.
unfoldable pub in_order : ℕ → ℕ → (ℕ → PacketInfo) → (ℕ → ℕ) → Bool
unfolding slot_in_order
in_order zero i f c = true
in_order (suc n) i f c =
    slot_in_order (f (entry i)) (c (up_index (f (entry i))))
      (in_order n (suc i) f (next_count (f (entry i)) c))

next_count-cong :
    (p : PacketInfo) (c d : ℕ → ℕ)
    → ((j : ℕ) → c j ≡ d j)
    → (j : ℕ) → next_count p c j ≡ next_count p d j
unfolding put
next_count-cong p c d e j = rw (e (up_index p), e j) refl

pub in_order-cong :
    (n i : ℕ) (f g : ℕ → PacketInfo) (c d : ℕ → ℕ)
    → All (λ (j : ℕ). f (entry j) ≡ g (entry j)) (range_from i n)
    → ((j : ℕ) → c j ≡ d j)
    → in_order n i f c ≡ in_order n i g d
unfolding in_order
in_order-cong zero i f g c d a e = refl
in_order-cong (suc n) i f g c d (h, a) e =
    let p = g (entry i) in
    let rest = in_order-cong n (suc i) f g _ _ a (next_count-cong p c d e) in
    ap (λ q. slot_in_order q (c (up_index q)) (in_order n (suc i) f (next_count q c))) h
    ∙ ap (λ k. slot_in_order p k (in_order n (suc i) f (next_count p c))) (e (up_index p))
    ∙ ap (slot_in_order p (d (up_index p))) rest

push_up-slots :
    (e : ℕ) (p : PacketInfo) (s : Prot) (j : ℕ) → e ≢ j → (push_up e p s).packets j ≡ s.packets j
unfolding push_up put
push_up-slots e p s j ne =
    let other : (j == e) ≡ false = ground arith in
    elim (Bool-cases (is_negative p.head.frag_index)) [
      | inl last ↦ simp (last, other)
      | inr more ↦ simp (more, other)
    ]

length-chained :
    (s : Prot) (p : PacketInfo)
    → length (chained s p) ≡ suc (length (or_empty (s.up_queue (up_index p))))
unfolding chained
length-chained s p = length-append (or_empty (s.up_queue (up_index p))) _ ∙ omega arith

push_up-counts :
    (e : ℕ) (p : PacketInfo) (s : Prot) (j : ℕ)
    → frag_count (push_up e p s) j ≡ after p (frag_count s) j
unfolding push_up put
push_up-counts e p s j = elim (Bool-cases (is_negative p.head.frag_index)) [
  | inl last ↦ elim (Bool-cases (j == up_index p)) [
    | inl here ↦ simp (last, here)
    | inr other ↦ simp (last, other)
  ]
  | inr more ↦ elim (Bool-cases (j == up_index p)) [
    | inl here ↦ simp (more, here, length-chained s p)
    | inr other ↦ simp (more, other)
  ]
]

pub All-range {ℓ} :
    (P : ℕ → Type ℓ) (first n : ℕ)
    → ((j : ℕ) → first ≤ j → j < first + n → P j)
    → All P (range_from first n)
All-range P first zero h = tt
All-range P first (suc n) h = (
  h first (omega arith) (omega arith),
  All-range P (suc first) n (λ j a b. h j (omega arith) (omega arith)),
)

-- A round that delivers a packet leaves the other rounds as they are.
pub in_order-delivered :
    (i n : ℕ) (s : Prot) (later : List Scatter)
    → n < 8192
    → (s.packets (entry i)).exist ≡ 1
    → let t = emit_all later (push_up (entry i) (s.packets (entry i)) s) in
      in_order n (suc i) t.packets (frag_count t)
      ≡ in_order n (suc i) s.packets (next_count (s.packets (entry i)) (frag_count s))
in_order-delivered i n s later h x =
    let p = s.packets (entry i) in
    let (o, frame) = emit_all-out later (push_up (entry i) p s) in
    let u = emit_all later (push_up (entry i) p s) in
    let slots : u.packets ≡ (push_up (entry i) p s).packets = ap (λ (t : Prot). t.packets) frame in
    let queue : u.up_queue ≡ (push_up (entry i) p s).up_queue =
      ap (λ (t : Prot). t.up_queue) frame in
    let waits : (p.exist == 1) ≡ true = ground arith in
    in_order-cong n (suc i) u.packets s.packets (frag_count u) (next_count p (frag_count s))
      (All-range _ (suc i) n (λ j a b.
        ap (λ f. f (entry j)) slots
        ∙ push_up-slots (entry i) p s (entry j) (entry_ne i j (omega arith) (omega arith))))
      (λ j.
        ap (λ q. length (or_empty (q j))) queue ∙ push_up-counts (entry i) p s j ∙ sym (simp waits))
