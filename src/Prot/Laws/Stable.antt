-- ===== src/Prot/Laws/Stable.antt =====
-- Stability: the ordinary round of `Discard_packets` of daemon/protocol.c.
use java_spread_assignment.Base.{
  ℕ, zero, suc, ◌+◌, ◌-◌, ◌≤◌, ◌<◌, ◌≡◌, ◌≢◌, refl, sym, ap, ◌∙◌, false, List, ◌∷◌, Option, some,
  ◌==◌, ltb, leb, if◌then◌else◌, arith, inl, inr, Bool-cases,
}
use java_spread_assignment.Base.Seqs.{>>=-eq-some, All, range_from}
use java_spread_assignment.Memb.{State}
use java_spread_assignment.Prot.State.{PacketInfo, Scatter, Effect, Prot, entry, put, set_exist}
use java_spread_assignment.Prot.Deliver.{deliver_packet}
use java_spread_assignment.Prot.Discard.{
  deliver_and_free, discard_one, discard_loop, discard_regular, discard_packets,
}
use java_spread_assignment.Prot.Laws.Slots.{
  deliver_packet-handed, handed, hand_over, hand_over-cong, entry_ne, entry_ne_range, is_evs-false,
}

-- What one round does: slot `i` is emptied, its packet handed up if it was not before.
pub record Freed (i : ℕ) (s t : Prot) : Type 0 where
  pub there : (s.packets (entry i)).exist ≢ 0
  pub free : (t.packets (entry i)).exist ≡ 0
  pub others : (e : ℕ) → e ≢ entry i → t.packets e ≡ s.packets e
  pub order : t.handed_up ≡ (
      if (s.packets (entry i)).exist == 1
      then (s.packets (entry i)).head.seq ∷ s.handed_up
      else s.handed_up)
  pub same_aru : t.aru ≡ s.aru
  pub same_level : t.last_delivered ≡ s.last_delivered

Freed-handed :
    (i : ℕ) (s : Prot) (q : ℕ → Option Scatter) (o : List Effect)
    → (s.packets (entry i)).exist ≡ 1
    → Freed i s (set_exist (entry i) 0 (handed (entry i) q o s))
unfolding put
Freed-handed i s q o x = record {
  there = omega arith;
  free = ground arith;
  others = λ e ne. ground arith;
  order = ground arith;
  same_aru = refl;
  same_level = refl;
}

Freed-dropped :
    (i : ℕ) (s : Prot)
    → (s.packets (entry i)).exist ≢ 0
    → ((s.packets (entry i)).exist == 1) ≡ false
    → Freed i s (set_exist (entry i) 0 s)
unfolding put
Freed-dropped i s x d = record {
  there = x;
  free = ground arith;
  others = λ e ne. ground arith;
  order = rw d;
  same_aru = refl;
  same_level = refl;
}

Freed-eq : (i : ℕ) (s t u : Prot) → some t ≡ some u → Freed i s t → Freed i s u
Freed-eq i s t u e f = let q : u ≡ t = cc in rw q f

deliver_and_free-Freed :
    (i : ℕ) (s t : Prot)
    → (s.packets (entry i)).exist ≢ 0
    → deliver_and_free i s ≡ some t
    → Freed i s t
unfolding deliver_and_free
deliver_and_free-Freed i s t x h = elim (Bool-cases ((s.packets (entry i)).exist == 1)) [
  | inl d ↦
      let (u, up, e) = >>=-eq-some (deliver_packet (entry i) s) _ (rw d at h) in
      let (q, o, shape) = deliver_packet-handed (entry i) s u up in
      Freed-eq i s (set_exist (entry i) 0 u) t e (rw shape (Freed-handed i s q o (ground arith)))
  | inr d ↦ Freed-eq i s (set_exist (entry i) 0 s) t (rw d at h) (Freed-dropped i s x d)
]

pub discard_one-Freed : (i : ℕ) (s t : Prot) → discard_one i s ≡ some t → Freed i s t
unfolding discard_one
discard_one-Freed i s t h = elim (Bool-cases ((s.packets (entry i)).exist == 0)) [
  | inl z ↦ cc (rw z at h)
  | inr nz ↦ deliver_and_free-Freed i s t (ground arith) (rw nz at h)
]

-- `n` rounds from `i` on.
pub record Discarded (n i : ℕ) (s t : Prot) : Type 0 where
  pub there : All (λ (j : ℕ). (s.packets (entry j)).exist ≢ 0) (range_from i n)
  pub free : All (λ (j : ℕ). (t.packets (entry j)).exist ≡ 0) (range_from i n)
  pub order : t.handed_up ≡ hand_over n i s.packets s.handed_up
  pub others : (e : ℕ) → All (λ (j : ℕ). e ≢ entry j) (range_from i n) → t.packets e ≡ s.packets e
  pub same_aru : t.aru ≡ s.aru
  pub same_level : t.last_delivered ≡ s.last_delivered

All-others :
    (i j k : ℕ) (s t : Prot)
    → i < j
    → j + k ≤ i + 8192
    → Freed i s t
    → All (λ (l : ℕ). t.packets (entry l) ≡ s.packets (entry l)) (range_from j k)
All-others i j zero s t h b p = tt
All-others i j (suc k) s t h b p = (
  p.others (entry j) (λ e. entry_ne i j h (omega arith) (sym e)),
  All-others i (suc j) k s t (omega arith) (omega arith) p,
)

All-there :
    (j k : ℕ) (s t : Prot)
    → All (λ (l : ℕ). t.packets (entry l) ≡ s.packets (entry l)) (range_from j k)
    → All (λ (l : ℕ). (t.packets (entry l)).exist ≢ 0) (range_from j k)
    → All (λ (l : ℕ). (s.packets (entry l)).exist ≢ 0) (range_from j k)
All-there j zero s t a b = tt
All-there j (suc k) s t (e, a) (x, b) =
    ((λ z. x (ap (λ (p : PacketInfo). p.exist) e ∙ z)), All-there (suc j) k s t a b)

discard_loop-Discarded :
    (n i : ℕ) (s t : Prot) → n ≤ 8192 → discard_loop n i s ≡ some t → Discarded n i s t
unfolding discard_loop
discard_loop-Discarded zero i s t b h =
    let e : t ≡ s = cc in
    rw e (record {
      there = tt;
      free = tt;
      order = refl;
      others = λ e a. refl;
      same_aru = refl;
      same_level = refl;
    })
discard_loop-Discarded (suc n) i s t b h =
    let (u, one, rest) = >>=-eq-some (discard_one i s) _ h in
    let f = discard_one-Freed i s u one in
    let d = discard_loop-Discarded n (suc i) u t (omega arith) rest in
    let away = All-others i (suc i) n s u (omega arith) (omega arith) f in
    record {
      there = (f.there, All-there (suc i) n s u away d.there);
      free = (
        ap (λ (p : PacketInfo). p.exist)
              (d.others (entry i) (entry_ne_range i (suc i) n (omega arith) (omega arith)))
            ∙ f.free,
        d.free,
      );
      order =
          d.order
          ∙ ap (hand_over n (suc i) u.packets) f.order
          ∙ hand_over-cong n (suc i) u.packets s.packets _ away;
      others = λ e a. d.others e a.1 ∙ f.others e a.0;
      same_aru = d.same_aru ∙ f.same_aru;
      same_level = d.same_level ∙ f.same_level;
    }

-- The levels at the end of the round.
abbrev levelled : Prot → Prot
levelled u = record u {
  last_discarded = u.aru;
  last_delivered = if ltb u.last_delivered u.aru then u.aru else u.last_delivered;
}

-- What an ordinary round of `Discard_packets` did.
pub record StableDelivery (s t : Prot) : Type 0 where
  pub discarded : t.last_discarded ≡ s.aru
  pub level : (s.last_delivered ≤ t.last_delivered) × (s.aru ≤ t.last_delivered)
  pub there :
      All
        (λ (j : ℕ). (s.packets (entry j)).exist ≢ 0)
        (range_from (suc s.last_discarded) (s.aru - s.last_discarded))
  pub free :
      All
        (λ (j : ℕ). (t.packets (entry j)).exist ≡ 0)
        (range_from (suc s.last_discarded) (s.aru - s.last_discarded))
  pub order :
      t.handed_up
      ≡ hand_over (s.aru - s.last_discarded) (suc s.last_discarded) s.packets s.handed_up
  pub others :
      (e : ℕ)
      → All (λ (j : ℕ). e ≢ entry j) (range_from (suc s.last_discarded) (s.aru - s.last_discarded))
      → t.packets e ≡ s.packets e

-- Outside a membership change, if `Discard_packets` comes to no fatal alarm, then every packet behind
-- `Last_discarded` and up to `Aru` was there; those that were not delivered yet are delivered, in the
-- order of their sequence numbers and each once; their slots, and no others, are emptied;
-- `Last_discarded` becomes `Aru`, and `Last_delivered` is not lowered and not behind it. The window
-- of packets is supposed to fit the slots.
pub discard_packets_stable :
    (s t : Prot)
    → s.last_discarded < s.aru
    → s.aru ≤ s.last_discarded + 8192
    → s.memb.state ≢ State.evs
    → discard_packets s ≡ some t
    → StableDelivery s t
unfolding discard_packets discard_regular
discard_packets_stable s t new window state h =
    let behind : leb s.aru s.last_discarded ≡ false = ground arith in
    let (u, ran, e) =
      >>=-eq-some (discard_loop (s.aru - s.last_discarded) (suc s.last_discarded) s) _
        (rw (behind, is_evs-false s.memb.state state) at h) in
    let d =
      discard_loop-Discarded (s.aru - s.last_discarded) (suc s.last_discarded) s u (omega arith)
        ran in
    finish u d e
  where
    finish :
        (u : Prot)
        → Discarded (s.aru - s.last_discarded) (suc s.last_discarded) s u
        → some (levelled u) ≡ some t
        → StableDelivery s t
    finish u d e =
        let q : t ≡ levelled u = cc in
        rw q (record {
          discarded = d.same_aru;
          level = ground (arith, d.same_aru, d.same_level);
          there = d.there;
          free = d.free;
          order = d.order;
          others = d.others;
        })
