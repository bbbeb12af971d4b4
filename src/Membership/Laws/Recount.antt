-- ===== src/Membership/Laws/Recount.antt =====
-- `My_aru` after a membership change: the last loop of `Read_form2` of daemon/membership.c.
use java_spread_assignment.Base.{
  ℕ, zero, suc, ◌+◌, ◌-◌, ◌≤◌, ◌<◌, ◌≡◌, refl, sym, ap, ◌∙◌, ◌⊎◌, inl, inr, Bool, true, false, ◌||◌,
  none, some, ◌==◌, if◌then◌else◌, arith,
}
use java_spread_assignment.Base.Seqs.{>>=-eq-some, some-eq, if_cases, if_either, All, range_from}
use java_spread_assignment.Prot.State.{PacketInfo, Prot, entry}
use java_spread_assignment.Prot.Laws.Slots.{if-eq-some}
use java_spread_assignment.Membership.Recover.{recount, recompute_my_aru}

-- A slot with a packet, delivered or not.
abbrev pub is_held : PacketInfo → Bool
is_held p = (p.exist == 1) || (p.exist == 2)

-- How far the first way of the loop counts.
pub record Held (n : ℕ) (f : ℕ → PacketInfo) (from to k : ℕ) : Type 0 where
  pub by : to ≡ from + k
  pub within : k ≤ n
  pub there : All (λ (j : ℕ). is_held (f (entry j)) ≡ true) (range_from (suc from) k)
  pub stop : (k ≡ n) ⊎ (is_held (f (entry (suc to))) ≡ false)

-- Once there is a hole, the count stays.
recount-stays :
    (n i : ℕ) (f : ℕ → PacketInfo) (a b : ℕ) (r : ℕ × ℕ)
    → a < i
    → recount n i f a b ≡ some r
    → r.0 ≡ a
unfolding recount
recount-stays zero i f a b r l h = sym (ap (λ (x : ℕ × ℕ). x.0) (some-eq h))
recount-stays (suc n) i f a b r l h =
    let p = f (entry (suc i)) in
    let same : (if i == a then suc i else a) ≡ a = ground arith in
    if_either (is_held p) _ _ (some r)
      (λ x. recount-stays n (suc i) f _ b r (ground arith) x ∙ same)
      (λ y.
        if_either ((p.exist == 0) || (p.exist == 3)) _ none (some r)
          (λ x. recount-stays n (suc i) f a _ r (omega arith) x) (λ x. cc) y)
      h

recount-Held :
    (n i : ℕ) (f : ℕ → PacketInfo) (b : ℕ) (r : ℕ × ℕ)
    → recount n i f i b ≡ some r
    → (k : ℕ) × Held n f i r.0 k
unfolding recount
recount-Held zero i f b r h =
    let e : r.0 ≡ i = sym (ap (λ (x : ℕ × ℕ). x.0) (some-eq h)) in
    (0, record { by = omega (arith, e); within = omega arith; there = tt; stop = inl refl })
recount-Held (suc n) i f b r h =
    let p = f (entry (suc i)) in
    if_cases (is_held p) _ _ (some r)
      (λ held x.
        let next : (if i == i then suc i else i) ≡ suc i = ground arith in
        let (k, d) = recount-Held n (suc i) f b r (rw next at x) in
        (
          suc k,
          record {
            by = omega (arith, d.by);
            within = omega (arith, d.within);
            there = (held, d.there);
            stop = later d.stop;
          },
        ))
      (λ hole y.
        let e : r.0 ≡ i =
          if_either ((p.exist == 0) || (p.exist == 3)) _ none (some r)
            (λ x. recount-stays n (suc i) f i _ r (omega arith) x) (λ x. cc) y in
        (
          0,
          record {
            by = omega (arith, e);
            within = omega arith;
            there = tt;
            stop = inr (ap (λ j. is_held (f (entry (suc j)))) e ∙ hole);
          },
        ))
      h
  where
    later : {A : Type 0} {k : ℕ} → (k ≡ n) ⊎ A → (suc k ≡ suc n) ⊎ A
    later (inl e) = inl (ap suc e)
    later (inr a) = inr a

-- Where `Read_form2` goes on after it has recomputed `My_aru`, the new value covers packets that the daemon
-- has, delivered or not, up to the first hole, filled or not, or up to `Highest_seq`.
-- Nothing else is changed.
pub recompute_my_aru_lem :
    (s t : Prot)
    → recompute_my_aru s ≡ some t
    → (t ≡ record s { my_aru = t.my_aru })
      × ((k : ℕ) × Held (s.highest_seq - s.last_discarded) s.packets s.last_discarded t.my_aru k)
unfolding recompute_my_aru
recompute_my_aru_lem s t h =
    let n = s.highest_seq - s.last_discarded in
    let (r, counted, e) =
      >>=-eq-some (recount n s.last_discarded s.packets s.last_discarded s.my_aru) _ h in
    let (_, same) = if-eq-some (r.0 == r.1) (record s { my_aru = r.0 }) t e in
    let (k, d) = recount-Held n s.last_discarded s.packets s.my_aru r counted in
    let aru : r.0 ≡ t.my_aru = ap (λ (x : Prot). x.my_aru) same in
    (sym same ∙ ap (λ a. record s { my_aru = a }) aru, (k, rw aru at d))
