-- ===== src/Memb/Placement.antt =====
-- The insertion into a set of representatives: `Insert_rep` of daemon/membership.c.
use java_spread_assignment.Base.{
  ℕ, suc, ◌≤◌, ◌≡◌, ◌≢◌, refl, sym, ap, ◌∙◌, ◌⊎◌, inl, inr, true, List, [], ◌∷◌, ◌++◌, Option, none,
  some, ◌==◌, ◌&&◌, if◌then◌else◌, Bool-cases, arith, length, length-append,
}
use java_spread_assignment.Base.Seqs.{>>=-eq-some, some-eq, if_cases, if_either}
use java_spread_assignment.Conf.{Proc, Configuration}
use java_spread_assignment.Memb.Sets.{proc_of}
use java_spread_assignment.Memb.Reps.{
  Rep, potential_rep, seg_rep, ring_rep, has_segment, behind, place_seg, place_ring, or_push,
  insert_rep,
}

-- The set after a loop that has found a place, or no reason to insert.
pub record Placed (seg : ℕ) (rs : List Rep) (r : ℕ × List Rep) : Type 0 where
  pub size : length r.1 ≡ length rs
  pub same : r.0 ≡ 0 → r.1 ≡ rs
  pub there : has_segment seg r.1 ≡ true

has_segment-here :
    (seg : ℕ) (q : Rep) (rs : List Rep)
    → (q.seg_index == seg) ≡ true
    → has_segment seg (q ∷ rs) ≡ true
unfolding has_segment
has_segment-here seg q rs e = simp e

has_segment-later :
    (seg : ℕ) (q : Rep) (rs : List Rep)
    → has_segment seg rs ≡ true
    → has_segment seg (q ∷ rs) ≡ true
unfolding has_segment
has_segment-later seg q rs e = elim (Bool-cases (q.seg_index == seg)) [
  | inl b ↦ simp b
  | inr b ↦ simp (b, e)
]

has_segment-append :
    (seg : ℕ) (rs : List Rep) (q : Rep)
    → q.seg_index ≡ seg
    → has_segment seg (rs ++ (q ∷ [])) ≡ true
has_segment-append seg [] q e = has_segment-here seg q [] (ground arith)
has_segment-append seg (x ∷ rs) q e =
    has_segment-later seg x (rs ++ (q ∷ [])) (has_segment-append seg rs q e)

-- The place was found by the rest of the loop.
behind-Placed :
    (seg : ℕ) (q : Rep) (rs : List Rep) (o : Option (ℕ × List Rep)) (r : ℕ × List Rep)
    → ((x : ℕ × List Rep) → o ≡ some x → Placed seg rs x)
    → behind q o ≡ some r
    → Placed seg (q ∷ rs) r
behind-Placed seg q rs none r p h = cc
behind-Placed seg q rs (some x) r p h =
    let d = p x refl in
    let e : (x.0, q ∷ x.1) ≡ r = some-eq h in
    let placed : Placed seg (q ∷ rs) (x.0, q ∷ x.1) = record {
      size = ap suc d.size;
      same = λ z. ap (λ xs. q ∷ xs) (d.same z);
      there = has_segment-later seg q x.1 d.there;
    } in
    rw e at placed

-- The loop ends at the representative `q`, which becomes `q'`.
ends-Placed :
    (seg c : ℕ) (q q' : Rep) (rs : List Rep) (r : ℕ × List Rep)
    → (q'.seg_index == seg) ≡ true
    → (c ≡ 0 → q' ≡ q)
    → ◌≡◌ {A = Option (ℕ × List Rep)} (some (c, q' ∷ rs)) (some r)
    → Placed seg (q ∷ rs) r
ends-Placed seg c q q' rs r b same h =
    let e : (c, q' ∷ rs) ≡ r = some-eq h in
    let placed : Placed seg (q ∷ rs) (c, q' ∷ rs) = record {
      size = refl;
      same = λ z. ap (λ x. x ∷ rs) (same z);
      there = has_segment-here seg q' rs b;
    } in
    rw e at placed

place_seg-Placed :
    (p : Proc) (rs : List Rep) (r : ℕ × List Rep)
    → place_seg p rs ≡ some r
    → Placed p.seg_index rs r
unfolding place_seg
place_seg-Placed p [] r h = cc
place_seg-Placed p (q ∷ rs) r h =
    let on = behind-Placed p.seg_index q rs (place_seg p rs) r (λ x e. place_seg-Placed p rs x e) in
    if_cases (q.seg_index == p.seg_index) _ _ (some r)
      (λ b w.
        if_either (q.type == potential_rep) _ _ (some r)
          (λ x. ends-Placed p.seg_index 1 q _ rs r b (λ z. absurd (omega (arith, z))) x)
          (λ v.
            if_either (q.type == seg_rep) _ _ (some r)
              (λ u.
                if_either (q.proc_id == p.id) _ _ (some r)
                  (λ x. ends-Placed p.seg_index 0 q q rs r b (λ z. refl) x) on u)
              (λ u.
                if_either ((q.type == ring_rep) && (q.proc_id == p.id)) _ _ (some r)
                  (λ x. ends-Placed p.seg_index 1 q _ rs r b (λ z. absurd (omega (arith, z))) x) on
                  u)
              v)
          w)
      (λ _ w. on w) h

place_ring-Placed :
    (p : Proc) (rs : List Rep) (r : ℕ × List Rep)
    → place_ring p rs ≡ some r
    → Placed p.seg_index rs r
unfolding place_ring
place_ring-Placed p [] r h = cc
place_ring-Placed p (q ∷ rs) r h =
    let on =
      behind-Placed p.seg_index q rs (place_ring p rs) r (λ x e. place_ring-Placed p rs x e) in
    if_cases (q.seg_index == p.seg_index) _ _ (some r)
      (λ b w.
        if_either (q.type == potential_rep) _ _ (some r)
          (λ x. ends-Placed p.seg_index 1 q _ rs r b (λ z. absurd (omega (arith, z))) x)
          (λ v.
            if_either (q.type == seg_rep) _ _ (some r)
              (λ u.
                if_either (q.proc_id == p.id) _ _ (some r)
                  (λ x. ends-Placed p.seg_index 1 q _ rs r b (λ z. absurd (omega (arith, z))) x) on
                  u)
              (λ u.
                if_either ((q.type == ring_rep) && (q.proc_id == p.id)) _ _ (some r)
                  (λ x. ends-Placed p.seg_index 0 q q rs r b (λ z. refl) x) on u)
              v)
          w)
      (λ _ w. on w) h

-- A set after an insertion.
pub record Inserted (seg : ℕ) (rs : List Rep) (r : ℕ × List Rep) : Type 0 where
  pub bound : length r.1 ≤ 25
  pub same : r.0 ≡ 0 → r.1 ≡ rs
  pub there : (has_segment seg r.1 ≡ true) ⊎ (length rs ≡ 25)

Placed-Inserted :
    (seg : ℕ) (rs : List Rep) (r : ℕ × List Rep)
    → length rs ≤ 25
    → Placed seg rs r
    → Inserted seg rs r
Placed-Inserted seg rs r l d = record {
  bound = omega (arith, d.size);
  same = d.same;
  there = inl d.there;
}

or_push-Inserted :
    (seg : ℕ) (o : Option (ℕ × List Rep)) (rs : List Rep) (rep : Rep)
    → length rs ≤ 25
    → rep.seg_index ≡ seg
    → ((x : ℕ × List Rep) → o ≡ some x → Placed seg rs x)
    → Inserted seg rs (or_push o rs rep)
unfolding or_push
or_push-Inserted seg (some x) rs rep l e p = Placed-Inserted seg rs x l (p x refl)
or_push-Inserted seg none rs rep l e p = elim (Bool-cases (length rs == 25)) [
  | inl b ↦
      let full : Inserted seg rs (0, rs) = record {
        bound = l;
        same = λ z. refl;
        there = inr (ground arith);
      } in
      rw b full
  | inr b ↦
      let pushed : Inserted seg rs (1, rs ++ (rep ∷ [])) = record {
        bound =
            let size = length-append rs (rep ∷ []) in
            let ne : length rs ≢ 25 = ground arith in omega (arith, size, ne, l);
        same = λ z. absurd (omega (arith, z));
        there = inl (has_segment-append seg rs rep e);
      } in
      rw b pushed
]

potential-Inserted :
    (seg : ℕ) (rs : List Rep) (rep : Rep)
    → length rs ≤ 25
    → rep.seg_index ≡ seg
    → Inserted seg rs (if has_segment seg rs then (0, rs) else or_push none rs rep)
potential-Inserted seg rs rep l e = elim (Bool-cases (has_segment seg rs)) [
  | inl b ↦
      let kept : Inserted seg rs (0, rs) = record { bound = l; same = λ z. refl; there = inl b } in
      rw b kept
  | inr b ↦ rw b (or_push-Inserted seg none rs rep l e (λ x k. cc))
]

Inserted-some :
    (seg : ℕ) (rs : List Rep) (x r : ℕ × List Rep)
    → some x ≡ some r
    → Inserted seg rs x
    → Inserted seg rs r
Inserted-some seg rs x r h i = let e : x ≡ r = some-eq h in rw e at i

insert_rep-Inserted_if :
    (cn : Configuration) (rs : List Rep) (rep : Rep) (p : Proc) (r : ℕ × List Rep)
    → length rs ≤ 25
    → proc_of cn rep.proc_id ≡ some p
    → rep.seg_index ≡ p.seg_index
    → insert_rep cn rs rep ≡ some r
    → Inserted p.seg_index rs r
unfolding insert_rep
insert_rep-Inserted_if cn rs rep p r l known seg h =
    let (q, found, h1) = >>=-eq-some (proc_of cn rep.proc_id) _ h in
    let e : q ≡ p = some-eq (sym found ∙ known) in
    let push = or_push-Inserted p.seg_index in
    if_either (rep.type == potential_rep) _ _ (some r)
      (λ x. Inserted-some p.seg_index rs _ r x (potential-Inserted p.seg_index rs rep l seg))
      (λ v.
        if_either (rep.type == seg_rep) _ _ (some r)
          (λ x.
            Inserted-some p.seg_index rs (or_push (place_seg p rs) rs rep) r x
              (push (place_seg p rs) rs rep l seg (λ x e. place_seg-Placed p rs x e)))
          (λ u.
            if_either (rep.type == ring_rep) _ none (some r)
              (λ x.
                Inserted-some p.seg_index rs (or_push (place_ring p rs) rs rep) r x
                  (push (place_ring p rs) rs rep l seg (λ x e. place_ring-Placed p rs x e)))
              (λ x. cc) u)
          v)
      (rw e at h1)

insert_rep-returns :
    (cn : Configuration) (rs : List Rep) (rep : Rep) (p : Proc)
    → proc_of cn rep.proc_id ≡ some p
    → rep.type ≤ 2
    → (r : ℕ × List Rep) × (insert_rep cn rs rep ≡ some r)
unfolding insert_rep
insert_rep-returns cn rs rep p known l = elim (Bool-cases (rep.type == potential_rep)) [
  | inl b ↦
      (if has_segment p.seg_index rs then (0, rs) else or_push none rs rep, rw (known, b) refl)
  | inr b ↦ elim (Bool-cases (rep.type == seg_rep)) [
    | inl c ↦ (or_push (place_seg p rs) rs rep, rw (known, b, c) refl)
    | inr c ↦
        let d : (rep.type == ring_rep) ≡ true = ground arith in
        (or_push (place_ring p rs) rs rep, rw (known, b, c, d) refl)
  ]
]

-- A representative of a known process, of one of the three types, with the segment that the configuration
-- gives it, is inserted without a fatal alarm, so that the set stays within its 25 places and is
-- unchanged if the result is 0; and the segment has a representative afterwards, unless the set was full.
pub insert_rep-Inserted :
    (cn : Configuration) (rs : List Rep) (rep : Rep) (p : Proc)
    → length rs ≤ 25
    → proc_of cn rep.proc_id ≡ some p
    → rep.seg_index ≡ p.seg_index
    → rep.type ≤ 2
    → (r : ℕ × List Rep) × (insert_rep cn rs rep ≡ some r) × Inserted p.seg_index rs r
insert_rep-Inserted cn rs rep p l known seg t =
    let (r, e) = insert_rep-returns cn rs rep p known t in
    (r, e, insert_rep-Inserted_if cn rs rep p r l known seg e)
