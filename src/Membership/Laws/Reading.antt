-- ===== src/Membership/Laws/Reading.antt =====
-- What a daemon waits for, when it installs the membership of a form2 token of daemon/membership.c.
use java_spread_assignment.Base.{
  ℕ, ◌≡◌, refl, ap, ◌∙◌, inl, inr, Bool, not, Option, none, some, ◌==◌, Bool-cases, arith,
}
use java_spread_assignment.Base.Seqs.{>>=-eq-some}
use java_spread_assignment.NetTypes.{MembershipId}
use java_spread_assignment.Conf
use java_spread_assignment.Conf.{Configuration}
use java_spread_assignment.Memb.{State, MembersInfo, is_evs}
use java_spread_assignment.Memb.Reps.{RingInfo}
use java_spread_assignment.Prot.State.{FormBody, FormToken}
use java_spread_assignment.Membership.State.{Machine}
use java_spread_assignment.Membership.Fill.{my_ring}
use java_spread_assignment.Membership.Recover.{recover_ring}
use java_spread_assignment.Membership.Form2.{
  NewId, install_form2, is_acceptable, read_form2, adopt, send_form2, enter_evs, count_me,
  name_membership, trans_time_of, take_commit, future_of, stamp_ring,
}
use java_spread_assignment.Membership.Timers.{FitsAs, Fits}
use java_spread_assignment.Membership.Laws.Quiet.{Quiet, Quiet-trans, Quiet-machine, Quiet-either}
use java_spread_assignment.Membership.Laws.Recovery.{recover_ring-Quiet}
use java_spread_assignment.Membership.Laws.Fits.{fits_as, Quiet-FitsAs, Fits-some}

adopt-Quiet :
    (members : MembersInfo) (tok : FormToken) (new : NewId) (m t : Machine)
    → adopt members tok new m ≡ some t
    → Quiet m.prot t.prot
unfolding adopt
adopt-Quiet members tok new m t h =
    let (future, _, h1) = >>=-eq-some (future_of m.prot.conf members) _ h in
    let (previous_id, _, e) = >>=-eq-some (Conf.previous m.prot.my future) _ h1 in
    Quiet-machine m.prot _ t e (record { state = refl; alive = refl; timers = refl })

send_form2-Quiet :
    (tok : FormToken) (m t : Machine) → send_form2 tok m ≡ some t → Quiet m.prot t.prot
unfolding send_form2
send_form2-Quiet tok m t h =
    let (last_id, _, e) = >>=-eq-some (Conf.last m.prot.memb.future_membership) _ h in
    Quiet-machine m.prot _ t e (
      Quiet-either (not (last_id == m.prot.my.id)) m.prot _ _
        (record { state = refl; alive = refl; timers = refl })
        (record { state = refl; alive = refl; timers = refl }))

-- The daemon has the token, and waits for it only.
enter_evs-Fits : (m : Machine) → FitsAs State.form m.prot → Fits (enter_evs m).prot
unfolding enter_evs
enter_evs-Fits m f = ground arith

install_form2-Fits :
    (now : ℕ) (tok : FormToken) (id : MembershipId) (r : RingInfo) (m t : Machine)
    → m.prot.memb.state ≡ State.form
    → FitsAs State.form m.prot
    → install_form2 now tok id r m ≡ some t
    → Fits t.prot
unfolding install_form2
install_form2-Fits now tok id r m t st f h =
    let members = count_me tok.members in
    let new = name_membership now (members.num_members == 1) id m in
    let (a, adopted, h1) = >>=-eq-some (adopt members tok new m) _ h in
    let p = adopt-Quiet members tok new m a adopted in
    let (s, recovered, h2) = >>=-eq-some (recover_ring r a.prot) _ h1 in
    let q = recover_ring-Quiet r a.prot s (ap is_evs (p.state ∙ st)) recovered in
    let times = trans_time_of now new r in
    let out : FormToken = record {
      head = record tok.head { proc_id = m.prot.my.id };
      members = members;
      body = FormBody.id_body new.id;
      rings = stamp_ring m.prot.memb.membership_id times.0 tok.rings;
    } in
    let v = record a { prot = take_commit r times.0 s; last_time_used = times.1 } in
    let (u, sent, e) = >>=-eq-some (send_form2 out v) _ h2 in
    let o = send_form2-Quiet out v u sent in
    let fs = Quiet-FitsAs State.form m.prot s (Quiet-trans m.prot a.prot s p q) f in
    Fits-some (enter_evs u) t e (enter_evs-Fits u (Quiet-FitsAs State.form v.prot u.prot o fs))

install_ring-Fits :
    (now : ℕ) (tok : FormToken) (id : MembershipId) (o : Option RingInfo) (m t : Machine)
    → m.prot.memb.state ≡ State.form
    → FitsAs State.form m.prot
    → Fits m.prot
    → elim o [ none ↦ some m | some r ↦ install_form2 now tok id r m ] ≡ some t
    → Fits t.prot
install_ring-Fits now tok id none m t st f g h = Fits-some m t h g
install_ring-Fits now tok id (some r) m t st f g h = install_form2-Fits now tok id r m t st f h

pub read_form2-Fits :
    (now : ℕ) (header_ok : Bool) (tot_len : ℕ) (tok : FormToken) (m t : Machine)
    → m.prot.memb.state ≡ State.form
    → Fits m.prot
    → read_form2 now header_ok tot_len tok m ≡ some t
    → Fits t.prot
unfolding read_form2
read_form2-Fits now header_ok tot_len tok m t st f h = go tok.body refl
  where
    go : (b : FormBody) → tok.body ≡ b → Fits t.prot
    go (FormBody.reps_body reps) e = let k : none ≡ some t = (rw e at h) in cc
    go (FormBody.id_body id) e = elim (Bool-cases (not (is_acceptable header_ok tot_len tok m))) [
      | inl b ↦ Fits-some m t (rw (e, b) at h) f
      | inr b ↦
          install_ring-Fits now tok id (my_ring m.prot.memb.membership_id tok.rings) m t st
            (fits_as State.form m.prot st f) f (rw (e, b) at h)
    ]
