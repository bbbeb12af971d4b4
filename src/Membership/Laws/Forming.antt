-- ===== src/Membership/Laws/Forming.antt =====
-- What a daemon waits for, through the two rounds of the form token of daemon/membership.c.
use java_spread_assignment.Base.{
  ℕ, ◌≡◌, refl, ap, ◌∙◌, inl, inr, Bool, true, false, ◌&&◌, [], ◌∷◌, Option, none, some, ◌==◌, ltb,
  if◌then◌else◌, Bool-cases, arith, get_elem?, length, drop,
}
use java_spread_assignment.Base.Seqs.{>>=-eq-some}
use java_spread_assignment.NetTypes.{block_regular_delivery}
use java_spread_assignment.Memb.{State, MembersInfo}
use java_spread_assignment.Memb.Reps.{RepsInfo, insert_reps, sort_reps, smallest_rep, reps_as_id}
use java_spread_assignment.Prot.State.{Effect, Event, Delay, FormToken, Prot}
use java_spread_assignment.Prot.Retrans.{token_body_size}
use java_spread_assignment.Prot.Threshold.{set_delivery_threshold}
use java_spread_assignment.Membership.State.{
  Machine, queue, dequeue, set_alive, alone, is_alive_of, is_pending,
}
use java_spread_assignment.Membership.Shift.{shift_to_gather}
use java_spread_assignment.Membership.Rings.{rings_bytes}
use java_spread_assignment.Membership.Form1.{
  pass_on, enter_form, create_form1, form_or_fail, back_to_op, form_members, send_form1,
  form1_token, form1_reps, keep_form1, pending_alone, others_as_potential, send_twice, with_length,
}
use java_spread_assignment.Membership.Timers.{Timers, FitsAs, Fits}
use java_spread_assignment.Membership.Laws.Quiet.{
  Quiet, Quiet-machine, set_delivery_threshold-Quiet,
}
use java_spread_assignment.Membership.Laws.Fits.{
  Quiet-FitsAs, Quiet-LeavesAs, Fits-some, shift_to_gather-Fits, shift_to_op-Fits,
}

send_twice-Quiet :
    (id : ℕ) (tok : FormToken) (m : Machine) → Quiet m.prot (send_twice id tok m).prot
send_twice-Quiet id tok m = record { state = refl; alive = refl; timers = refl }

pub pass_on-Quiet :
    (last : Option (ℕ × MembersInfo)) (tok : FormToken) (reps : RepsInfo) (m t : Machine)
    → pass_on last tok reps m ≡ some t
    → Quiet m.prot t.prot
unfolding pass_on
pass_on-Quiet last tok reps m t h = elim (Bool-cases (ltb 0 tok.members.num_pending)) [
  | inl b ↦
      let (id, _, e) =
        >>=-eq-some (get_elem? tok.members.members tok.members.num_members) _ (rw b at h) in
      Quiet-machine m.prot _ t e (send_twice-Quiet id (with_length tok) m)
  | inr b ↦ elim (Bool-cases (ltb reps.rep_index (length reps.reps))) [
    | inl c ↦
        let (r, _, e) = >>=-eq-some (get_elem? reps.reps reps.rep_index) _ (rw (b, c) at h) in
        Quiet-machine m.prot _ t e (send_twice-Quiet r.proc_id (with_length tok) m)
    | inr c ↦
        let (to, _, h1) = >>=-eq-some last _ (rw (b, c) at h) in
        let (garbage, _, e) = >>=-eq-some (reps_as_id reps) _ h1 in
        Quiet-machine m.prot _ t e (record { state = refl; alive = refl; timers = refl })
  ]
]

pub enter_form-Fits :
    (m t : Machine)
    → FitsAs State.form (set_alive false m).prot
    → enter_form m ≡ some t
    → Fits t.prot
unfolding enter_form
enter_form-Fits m t f h =
    let u =
      set_alive false (dequeue Event.token_hurry (queue Event.token_loss Delay.form_timeout m)) in
    let (s, set, e) = >>=-eq-some (set_delivery_threshold block_regular_delivery u.prot) _ h in
    let q = set_delivery_threshold-Quiet block_regular_delivery u.prot s set in
    Fits-some _ t e
      (Quiet-FitsAs State.form u.prot s q f, Quiet-LeavesAs State.form u.prot s q refl)

if-then {ℓ} : {A : Type ℓ} (b : Bool) (x y o : A) → b ≡ true → (if b then x else y) ≡ o → x ≡ o
if-then true x y o e h = h
if-then false x y o e h = cc

if-else {ℓ} : {A : Type ℓ} (b : Bool) (x y o : A) → b ≡ false → (if b then x else y) ≡ o → y ≡ o
if-else true x y o e h = cc
if-else false x y o e h = h

if-none {ℓ} :
    {A : Type ℓ} (b : Bool) (o : Option A) (t : A) → (if b then none else o) ≡ some t → o ≡ some t
if-none true o t h = cc
if-none false o t h = h

-- What is left to wait for once a leader has sent the token.
gathered_alone :
    (s : Prot)
    → FitsAs State.gather s
    → is_pending Event.form_or_fail s.out ≡ false
    → FitsAs State.form (record s {
      memb = record s.memb { token_alive = false };
      out = Effect.e_dequeue Event.send_join ∷ s.out;
    })
gathered_alone s f p = ground arith

send_form1-Fits :
    (tok : FormToken) (reps : RepsInfo) (m t : Machine)
    → FitsAs State.gather m.prot
    → is_pending Event.form_or_fail m.prot.out ≡ false
    → send_form1 tok reps m ≡ some t
    → Fits t.prot
unfolding send_form1
send_form1-Fits tok reps m t f p h =
    let last = some (m.prot.my.id, pending_alone tok.members) in
    let sent = if-none (ltb token_body_size (rings_bytes tok.rings)) _ t h in
    let (u, passed, entered) = >>=-eq-some (pass_on last tok reps m) _ sent in
    let q = pass_on-Quiet last tok reps m u passed in
    enter_form-Fits (dequeue Event.send_join u) t
      (gathered_alone u.prot (Quiet-FitsAs State.gather m.prot u.prot q f)
        (ap (λ (x : Timers). x.form_or_fail) q.timers ∙ p))
      entered

-- A leader whose timer for gathering has fired.
create_form1-Fits :
    (now : ℕ) (m t : Machine)
    → FitsAs State.gather m.prot
    → is_pending Event.form_or_fail m.prot.out ≡ false
    → create_form1 now m ≡ some t
    → Fits t.prot
unfolding create_form1 keep_form1
create_form1-Fits now m t f p h =
    let (members, _, h1) = >>=-eq-some (form_members m) _ h in
    let (sorted, _, h2) = >>=-eq-some (sort_reps m.prot.conf m.f_reps.reps) _ h1 in
    let (potential, _, sent) =
      >>=-eq-some (insert_reps m.prot.conf [] (others_as_potential m.prot.my.seg_index sorted)) _
        h2 in
    send_form1-Fits (form1_token now members (form1_reps sorted) m) (form1_reps sorted)
      (keep_form1 now members (form1_reps sorted) potential m) t f p sent

back_to_op-Fits :
    (m : Machine)
    → is_alive_of m ≡ true
    → FitsAs State.gather m.prot
    → is_pending Event.form_or_fail m.prot.out ≡ false
    → Fits (back_to_op m).prot
back_to_op-Fits m a f p =
    shift_to_op-Fits
      (queue Event.lookup_new_members Delay.lookup_timeout (dequeue Event.send_join m))
      (ground arith)

gather_again-Fits : (m : Machine) → FitsAs State.gather m.prot → Fits (shift_to_gather m).prot
gather_again-Fits m f = shift_to_gather-Fits m (ground arith) (ground arith) (ground arith)

pub form_or_fail-Fits :
    (now : ℕ) (m t : Machine)
    → FitsAs State.gather m.prot
    → is_pending Event.form_or_fail m.prot.out ≡ false
    → form_or_fail now m ≡ some t
    → Fits t.prot
unfolding form_or_fail
form_or_fail-Fits now m t f p h =
    let (s, _, h1) = >>=-eq-some (smallest_rep m.prot.conf m.f_reps.reps) _ h in
    let back = λ (a : is_alive_of m ≡ true) (e : some (back_to_op m) ≡ some t).
      Fits-some (back_to_op m) t e (back_to_op-Fits m a f p) in
    elim (Bool-cases (s.1.proc_id == m.prot.my.id)) [
      | inl b ↦ elim (Bool-cases (is_alive_of m && (length m.f_reps.reps == 1))) [
        | inl c ↦ back (ground arith) (rw (b, c) at h1)
        | inr c ↦ create_form1-Fits now m t f p (rw (b, c) at h1)
      ]
      | inr b ↦ elim (Bool-cases (is_alive_of m)) [
        | inl a ↦ back a (if-then (is_alive_of m) _ _ (some t) a (rw b at h1))
        | inr a ↦
            let (potential, _, e) =
              >>=-eq-some (insert_reps m.prot.conf [] (drop 1 m.f_reps.reps)) _
                (if-else (is_alive_of m) _ _ (some t) a (rw b at h1)) in
            Fits-some _ t e (
              gather_again-Fits
                (record m {
                  f_members = alone m.prot.my.id m.f_members;
                  potential_reps = potential;
                })
                f)
      ]
    ]
