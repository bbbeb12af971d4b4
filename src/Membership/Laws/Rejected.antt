-- ===== src/Membership/Laws/Rejected.antt =====
-- The form2 tokens that `Read_form2` of daemon/membership.c drops.
use java_spread_assignment.Base.{ℕ, ◌≡◌, refl, inl, inr, Bool, some, Bool-cases, Option-cases}
use java_spread_assignment.Memb.{State}
use java_spread_assignment.Memb.Reps.{RingInfo}
use java_spread_assignment.NetTypes.{MembershipId}
use java_spread_assignment.Prot.State.{FormBody, FormToken}
use java_spread_assignment.Membership.State.{Machine}
use java_spread_assignment.Membership.Fill.{my_ring}
use java_spread_assignment.Membership.Form2.{is_acceptable, read_form2}
use java_spread_assignment.Membership.Handlers.{handle_form2}
use java_spread_assignment.Membership.Laws.Outcome.{Accepted, is_acceptable-Accepted}

-- What the daemon and the token have to be for the new membership to be installed.
abbrev pub IsTaken : State → Bool → ℕ → FormToken → Machine → Type 0
IsTaken st header_ok tot_len tok m =
    (st ≡ State.form)
    × Accepted header_ok tot_len tok m
    × ((r : RingInfo) × (my_ring m.prot.memb.membership_id tok.rings ≡ some r))

read_form2-dropped :
    (now : ℕ) (header_ok : Bool) (tot_len : ℕ) (tok : FormToken) (id : MembershipId) (m : Machine)
    → tok.body ≡ FormBody.id_body id
    → ¬ IsTaken State.form header_ok tot_len tok m
    → read_form2 now header_ok tot_len tok m ≡ some m
unfolding read_form2
read_form2-dropped now header_ok tot_len tok id m e n =
    elim (Bool-cases (is_acceptable header_ok tot_len tok m)) [
      | inr b ↦ rw (e, b)
      | inl b ↦ elim (Option-cases (my_ring m.prot.memb.membership_id tok.rings)) [
        | inl missing ↦ rw (e, b, missing)
        | inr (r, found) ↦
            absurd (n (refl, is_acceptable-Accepted header_ok tot_len tok m b, (r, found)))
      ]
    ]

-- A token with the identifier of a new membership is dropped, without a fatal alarm and without any
-- change, if the daemon is not in FORM, or the token did not come in one piece, long enough for the
-- rings that it says it has, or is of another attempt, has no member to come or no room, another
-- next member, a ring entry that is not sound, or none of the daemon's ring.
pub form2_dropped :
    (st : State) (now : ℕ) (header_ok : Bool) (tot_len : ℕ) (tok : FormToken) (id : MembershipId)
    (m : Machine)
    → tok.body ≡ FormBody.id_body id
    → ¬ IsTaken st header_ok tot_len tok m
    → handle_form2 st now header_ok tot_len tok m ≡ some m
unfolding handle_form2
form2_dropped State.form now header_ok tot_len tok id m e n =
    read_form2-dropped now header_ok tot_len tok id m e n
form2_dropped State.op now header_ok tot_len tok id m e n = refl
form2_dropped State.seg now header_ok tot_len tok id m e n = refl
form2_dropped State.represented now header_ok tot_len tok id m e n = refl
form2_dropped State.gather now header_ok tot_len tok id m e n = refl
form2_dropped State.evs now header_ok tot_len tok id m e n = refl
