-- ===== src/Membership/Laws/Backoff.antt =====
-- The slots of the old ring when a membership change fails: `Backoff_membership` of daemon/membership.c.
use java_spread_assignment.Base.{
  ℕ, zero, suc, ◌+◌, ◌-◌, ◌≤◌, ◌<◌, ◌≡◌, ◌≢◌, refl, sym, ap, ◌∙◌, inl, inr, true, ◌==◌,
  if◌then◌else◌, Bool-cases, arith,
}
use java_spread_assignment.Prot.State.{PacketInfo, Prot, entry, put}
use java_spread_assignment.Prot.Laws.Token.{Raised, advance_aru-Raised}
use java_spread_assignment.Membership.Loss.{clear_dummy, clear_dummies, backoff_membership}

clear_dummy-shape :
    (i : ℕ) (s : Prot) → clear_dummy i s ≡ record s { packets = (clear_dummy i s).packets }
unfolding clear_dummy
clear_dummy-shape i s = elim (Bool-cases ((s.packets (entry i)).exist == 3)) [
  | inl b ↦ rw b
  | inr b ↦ rw b
]

-- What is no dummy stays as it is.
clear_dummy-kept :
    (i e : ℕ) (s : Prot) → (s.packets e).exist ≢ 3 → (clear_dummy i s).packets e ≡ s.packets e
unfolding clear_dummy put
clear_dummy-kept i e s h = elim (Bool-cases ((s.packets (entry i)).exist == 3)) [
  | inl b ↦ ground arith
  | inr b ↦ rw b refl
]

clear_dummy-gone : (i : ℕ) (s : Prot) → ((clear_dummy i s).packets (entry i)).exist ≢ 3
unfolding clear_dummy put
clear_dummy-gone i s = ground arith

clear_dummies-shape :
    (n i : ℕ) (s : Prot)
    → clear_dummies n i s ≡ record s { packets = (clear_dummies n i s).packets }
unfolding clear_dummies
clear_dummies-shape zero i s = refl
clear_dummies-shape (suc n) i s =
    clear_dummies-shape n (suc i) (clear_dummy i s)
    ∙ ap (λ (u : Prot). record u { packets = (clear_dummies (suc n) i s).packets })
        (clear_dummy-shape i s)

clear_dummies-kept :
    (n i e : ℕ) (s : Prot) → (s.packets e).exist ≢ 3 → (clear_dummies n i s).packets e ≡ s.packets e
unfolding clear_dummies
clear_dummies-kept zero i e s h = refl
clear_dummies-kept (suc n) i e s h =
    let same = clear_dummy-kept i e s h in
    clear_dummies-kept n (suc i) e (clear_dummy i s)
      (λ x. h (sym (ap (λ (p : PacketInfo). p.exist) same) ∙ x))
    ∙ same

-- What a slot is after the dummies are gone.
abbrev pub cleared : PacketInfo → PacketInfo
cleared p = if p.exist == 3 then record p { exist = 0 } else p

clear_dummy-at :
    (i : ℕ) (s : Prot) → (clear_dummy i s).packets (entry i) ≡ cleared (s.packets (entry i))
unfolding clear_dummy put
clear_dummy-at i s = elim (Bool-cases ((s.packets (entry i)).exist == 3)) [
  | inl b ↦ let own : (entry i == entry i) ≡ true = ground arith in simp (b, own)
  | inr b ↦ simp b
]

clear_dummy-off : (i e : ℕ) (s : Prot) → entry i ≢ e → (clear_dummy i s).packets e ≡ s.packets e
unfolding clear_dummy put
clear_dummy-off i e s h = elim (Bool-cases ((s.packets (entry i)).exist == 3)) [
  | inl b ↦ ground arith
  | inr b ↦ rw b refl
]

cleared_twice : (p : PacketInfo) → cleared (cleared p) ≡ cleared p
cleared_twice p = elim (Bool-cases (p.exist == 3)) [ inl b ↦ simp b | inr b ↦ simp (b, b) ]

clear_dummy-cleared :
    (i e : ℕ) (s : Prot) → cleared ((clear_dummy i s).packets e) ≡ cleared (s.packets e)
clear_dummy-cleared i e s = elim (Bool-cases (entry i == e)) [
  | inl b ↦
      let same : entry i ≡ e = ground arith in
      rw (sym same) (ap cleared (clear_dummy-at i s) ∙ cleared_twice (s.packets (entry i)))
  | inr b ↦ ap cleared (clear_dummy-off i e s (ground arith))
]

clear_dummies-at :
    (n i j : ℕ) (s : Prot)
    → i ≤ j
    → j < i + n
    → (clear_dummies n i s).packets (entry j) ≡ cleared (s.packets (entry j))
unfolding clear_dummies
clear_dummies-at zero i j s l h = absurd (omega arith)
clear_dummies-at (suc n) i j s l h = elim (Bool-cases (i == j)) [
  | inr b ↦
      clear_dummies-at n (suc i) j (clear_dummy i s) (ground arith) (omega arith)
      ∙ clear_dummy-cleared i (entry j) s
  | inl b ↦
      let e : i ≡ j = ground arith in
      rw (sym e) (
        clear_dummies-kept n (suc i) (entry i) (clear_dummy i s) (clear_dummy-gone i s)
        ∙ clear_dummy-at i s)
]

clear_dummies-off :
    (n i e : ℕ) (s : Prot)
    → ((j : ℕ) → i ≤ j → j < i + n → entry j ≢ e)
    → (clear_dummies n i s).packets e ≡ s.packets e
unfolding clear_dummies
clear_dummies-off zero i e s h = refl
clear_dummies-off (suc n) i e s h =
    clear_dummies-off n (suc i) e (clear_dummy i s) (λ j l k. h j (omega arith) (omega arith))
    ∙ clear_dummy-off i e s (h i (omega arith) (omega arith))

Raised-at :
    (n n' : ℕ) (f : ℕ → PacketInfo) (from from' to k : ℕ)
    → n ≡ n'
    → from ≡ from'
    → Raised n f from to k
    → Raised n' f from' to k
Raised-at n n' f from from' to k e g r = rw (e, g) at r

-- When a membership change fails, `Aru` goes back to `Last_discarded`; in each slot behind it, up to
-- `Highest_seq`, a dummy becomes a hole again and anything else is kept; `My_aru` covers exactly the
-- slots before the first hole. No other slot is changed, and nothing else.
pub backoff_membership_lem :
    (s : Prot)
    → let t = backoff_membership s in
      (t ≡ record s { packets = t.packets; my_aru = t.my_aru; aru = s.last_discarded })
      × ((j : ℕ)
          → s.last_discarded < j
          → j ≤ s.highest_seq
          → t.packets (entry j) ≡ cleared (s.packets (entry j)))
      × ((e : ℕ)
          → ((j : ℕ) → s.last_discarded < j → j ≤ s.highest_seq → entry j ≢ e)
          → t.packets e ≡ s.packets e)
      × ((k : ℕ) × Raised (s.highest_seq - s.last_discarded) t.packets s.last_discarded t.my_aru k)
unfolding backoff_membership
backoff_membership_lem s =
    let n = s.highest_seq - s.last_discarded in
    let u = clear_dummies n (suc s.last_discarded) s in
    let shape = clear_dummies-shape n (suc s.last_discarded) s in
    let low : u.last_discarded ≡ s.last_discarded = ap (λ (x : Prot). x.last_discarded) shape in
    let high : u.highest_seq ≡ s.highest_seq = ap (λ (x : Prot). x.highest_seq) shape in
    let t = backoff_membership s in
    (
      ap (λ (x : Prot). record x { packets = t.packets; my_aru = t.my_aru; aru = u.last_discarded })
            shape
          ∙ ap (λ a. record s { packets = t.packets; my_aru = t.my_aru; aru = a }) low,
      λ j l h. clear_dummies-at n (suc s.last_discarded) j s (omega arith) (omega arith),
      λ e h.
          clear_dummies-off n (suc s.last_discarded) e s (λ j l k. h j (omega arith) (omega arith)),
      let (k, r) =
            advance_aru-Raised (u.highest_seq - u.last_discarded) u.packets u.last_discarded in
          (
            k,
            Raised-at _ n u.packets u.last_discarded s.last_discarded _ k (omega (arith, low, high))
                low r,
          ),
    )
