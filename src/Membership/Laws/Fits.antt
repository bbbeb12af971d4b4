-- ===== src/Membership/Laws/Fits.antt =====
-- The changes of state of daemon/membership.c queue and dequeue the timers of the new state.
use java_spread_assignment.Base.{
  ◌≡◌, refl, ap, ◌∙◌, inl, inr, Bool, true, false, not, ◌&&◌, ◌||◌, some, ◌==◌, if◌then◌else◌,
  Bool-cases, arith, get_elem?,
}
use java_spread_assignment.Base.Seqs.{>>=-eq-some}
use java_spread_assignment.NetTypes.{no_id, block_regular_delivery}
use java_spread_assignment.Memb.{State}
use java_spread_assignment.Memb.Sets.{smallest_member}
use java_spread_assignment.Prot.State.{Event, Prot}
use java_spread_assignment.Prot.Threshold.{set_delivery_threshold}
use java_spread_assignment.Membership.State.{Machine, set_alive, is_alive_of, is_pending}
use java_spread_assignment.Membership.Shift.{
  shift_to_op, shift_to_seg, shift_to_gather, shift_to_represented, gather_or_represented, gathered,
}
use java_spread_assignment.Membership.Loss.{lose_token, forget_token}
use java_spread_assignment.Membership.Timers.{Timers, FitsAs, LeavesAs, Fits}
use java_spread_assignment.Membership.Laws.Quiet.{Quiet, set_delivery_threshold-Quiet}

pub fits_at : (st : State) (s : Prot) → s.memb.state ≡ st → FitsAs s.memb.state s → FitsAs st s
fits_at st s e f = rw e at f

pub fits_as : (st : State) (s : Prot) → s.memb.state ≡ st → Fits s → FitsAs st s
fits_as st s e f = fits_at st s e f.0

pub leaves_as : (st : State) (s : Prot) → s.memb.state ≡ st → Fits s → LeavesAs st s
leaves_as st s e f = rw e at f.1

pub Quiet-LeavesAs : (st : State) (s t : Prot) → Quiet s t → LeavesAs st s → LeavesAs st t
Quiet-LeavesAs st s t q f = simp (q.timers, f)

pub Quiet-Fits : (s t : Prot) → Quiet s t → Fits s → Fits t
Quiet-Fits s t q f = (simp (q.state, q.alive, q.timers, f.0), simp (q.state, q.timers, f.1))

pub Quiet-FitsAs : (st : State) (s t : Prot) → Quiet s t → FitsAs st s → FitsAs st t
Quiet-FitsAs st s t q f = simp (q.alive, q.timers, f)

pub shift_to_seg-Fits : (m : Machine) → FitsAs State.seg m.prot → Fits (shift_to_seg m).prot
unfolding shift_to_seg
shift_to_seg-Fits m f = (f, refl)

pub shift_to_represented-Fits :
    (m : Machine) → FitsAs State.seg m.prot → Fits (shift_to_represented m).prot
unfolding shift_to_represented
shift_to_represented-Fits m f = (ground arith, refl)

pub shift_to_gather-Fits :
    (m : Machine)
    → (is_alive_of m || not (is_pending Event.token_loss m.prot.out)) ≡ true
    → is_pending Event.gather_or_represented m.prot.out ≡ false
    → is_pending Event.shift_to_seg m.prot.out ≡ false
    → Fits (shift_to_gather m).prot
unfolding shift_to_gather
shift_to_gather-Fits m a g s = (simp (a, g, s), refl)

pub Fits-some : (m t : Machine) → some m ≡ some t → Fits m.prot → Fits t.prot
Fits-some m t e f = let q : t ≡ m = cc in rw q f

pub Fits-if :
    (b : Bool) (m t : Machine) → Fits m.prot → Fits t.prot → Fits (if b then m else t).prot
Fits-if true m t p q = p
Fits-if false m t p q = q

shift_to_seg-some :
    (m t : Machine) → some (shift_to_seg m) ≡ some t → FitsAs State.seg m.prot → Fits t.prot
shift_to_seg-some m t e f = Fits-some (shift_to_seg m) t e (shift_to_seg-Fits m f)

||-true : (b : Bool) → (b || true) ≡ true
||-true true = refl
||-true false = refl

pub &&-true : (a b : Bool) → (a && b) ≡ true → (a ≡ true) × (b ≡ true)
&&-true true b h = (refl, h)
&&-true false b h = cc

pub not-true : (b : Bool) → not b ≡ true → b ≡ false
not-true true h = cc
not-true false h = refl

-- Back to the ring.
pub shift_to_op-Fits : (m : Machine) → FitsAs State.op m.prot → Fits (shift_to_op m).prot
unfolding shift_to_op
shift_to_op-Fits m f = elim (Bool-cases m.prot.need_conf_reload) [
  | inl b ↦ (simp (b, f), simp b)
  | inr b ↦ (simp (b, f), simp b)
]

pub gather_or_represented-Fits :
    (m t : Machine)
    → FitsAs State.seg m.prot
    → is_pending Event.gather_or_represented m.prot.out ≡ false
    → gather_or_represented m ≡ some t
    → Fits t.prot
unfolding gather_or_represented
gather_or_represented-Fits m t f g h =
    let u = record m { my_seg_rep = no_id } in
    let (i, _, h1) = >>=-eq-some (smallest_member m.prot.conf (gathered m)) _ h in
    let (id, _, h2) = >>=-eq-some (get_elem? (gathered m) i) _ h1 in
    let (alive, rest) = &&-true (not (is_alive_of m)) _ f in
    let (tl, rest2) = &&-true (not (is_pending Event.token_loss m.prot.out)) _ rest in
    let (sts, _) = &&-true (not (is_pending Event.shift_to_seg m.prot.out)) _ rest2 in
    Fits-some _ t h2 (
      Fits-if (id == m.prot.my.id) (shift_to_gather u) (shift_to_represented u)
        (shift_to_gather-Fits u (simp (tl, ||-true)) g (not-true _ sts))
        (shift_to_represented-Fits u f))

pub lose_token-Fits :
    (m t : Machine)
    → is_pending Event.shift_to_seg m.prot.out ≡ false
    → lose_token m ≡ some t
    → Fits t.prot
unfolding lose_token forget_token
lose_token-Fits m t p h =
    let (s, set, e) =
      >>=-eq-some (set_delivery_threshold block_regular_delivery (set_alive false m).prot) _ h in
    let q = set_delivery_threshold-Quiet block_regular_delivery (set_alive false m).prot s set in
    let same : is_pending Event.shift_to_seg s.out ≡ false =
      ap (λ (x : Timers). x.shift_to_seg) q.timers ∙ p in
    shift_to_seg-some (forget_token s (set_alive false m)) t e (simp (q.alive, same))
