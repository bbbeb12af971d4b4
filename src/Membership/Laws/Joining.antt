-- ===== src/Membership/Laws/Joining.antt =====
-- What a daemon waits for, when it joins the form token of another one, in daemon/membership.c.
use java_spread_assignment.Base.{◌≡◌, refl, ap, ◌∙◌, false, [], ◌∷◌, Option, none, some, arith}
use java_spread_assignment.Base.Seqs.{◌>>=◌, >>=-eq-some}
use java_spread_assignment.Memb.{State, MembersInfo}
use java_spread_assignment.Memb.Reps.{RepsInfo, insert_reps}
use java_spread_assignment.Prot.State.{Effect, Event, FormBody, FormToken, Prot}
use java_spread_assignment.Membership.State.{Machine, dequeue, is_pending}
use java_spread_assignment.Membership.Form1.{pass_on, others_as_potential}
use java_spread_assignment.Membership.Fill.{
  Joined, join_token, fill_rings, form2_members, fill_head, fill_joined, fill_or_drop, fill_form1,
}
use java_spread_assignment.Membership.Timers.{Timers, FitsAs, Fits}
use java_spread_assignment.Membership.Laws.Fits.{Fits-some}
use java_spread_assignment.Membership.Laws.Forming.{pass_on-Quiet, enter_form-Fits}

-- What is left to wait for once a daemon has passed the token on.
joined_alone :
    (s : Prot)
    → is_pending Event.scast_alive s.out ≡ false
    → is_pending Event.gather_or_represented s.out ≡ false
    → FitsAs State.form (record s {
      memb = record s.memb { token_alive = false };
      out =
          Effect.e_dequeue Event.shift_to_seg
          ∷ Effect.e_dequeue Event.form_or_fail
          ∷ Effect.e_dequeue Event.send_join
          ∷ s.out;
    })
joined_alone s a g = simp (a, g)

fill_joined-Fits :
    (tok : FormToken) (j : Joined) (m t : Machine)
    → is_pending Event.scast_alive m.prot.out ≡ false
    → is_pending Event.gather_or_represented m.prot.out ≡ false
    → fill_joined tok j m ≡ some t
    → Fits t.prot
unfolding fill_joined
fill_joined-Fits tok j m t a g h =
    let (potential, _, h1) =
      >>=-eq-some (insert_reps m.prot.conf [] (others_as_potential m.prot.my.seg_index j.reps.reps))
        _ h in
    let (filled, _, h2) = >>=-eq-some (fill_rings j.members tok.rings m.prot) _ h1 in
    let v = record m {
      f_members = j.f_members;
      form1_memb_id = tok.head.memb_id;
      potential_reps = potential;
    } in
    let last = form2_members v filled.1 in
    let out : FormToken = record {
      head = fill_head m.prot tok.head;
      members = filled.1;
      body = FormBody.reps_body j.reps;
      rings = filled.0;
    } in
    let (u, passed, entered) = >>=-eq-some (pass_on last out j.reps v) _ h2 in
    let q = pass_on-Quiet last out j.reps v u passed in
    enter_form-Fits
      (dequeue Event.shift_to_seg (dequeue Event.form_or_fail (dequeue Event.send_join u))) t
      (joined_alone u.prot (ap (λ (x : Timers). x.scast_alive) q.timers ∙ a)
        (ap (λ (x : Timers). x.gather_or_represented) q.timers ∙ g))
      entered

-- Only a daemon that looks for nobody by itself joins a token.
join_token-scast_alive :
    (st : State) (members : MembersInfo) (reps : RepsInfo) (m : Machine) {j : Option Joined}
    → FitsAs st m.prot
    → join_token st members reps m ≡ some j
    → (is_pending Event.scast_alive m.prot.out ≡ false)
      × (is_pending Event.gather_or_represented m.prot.out ≡ false)
unfolding join_token
join_token-scast_alive State.op members reps m f h = (ground arith, ground arith)
join_token-scast_alive State.seg members reps m f h = cc
join_token-scast_alive State.represented members reps m f h = (ground arith, ground arith)
join_token-scast_alive State.gather members reps m f h = (ground arith, ground arith)
join_token-scast_alive State.form members reps m f h = cc
join_token-scast_alive State.evs members reps m f h = cc

fill_or_drop-Fits :
    (tok : FormToken) (j : Option Joined) (m t : Machine)
    → Fits m.prot
    → is_pending Event.scast_alive m.prot.out ≡ false
    → is_pending Event.gather_or_represented m.prot.out ≡ false
    → fill_or_drop tok j m ≡ some t
    → Fits t.prot
fill_or_drop-Fits tok none m t f a g h = Fits-some m t h f
fill_or_drop-Fits tok (some j) m t f a g h = fill_joined-Fits tok j m t a g h

fill_body-Fits :
    (tok : FormToken) (reps : RepsInfo) (m t : Machine)
    → Fits m.prot
    → (join_token m.prot.memb.state tok.members reps m >>= λ joined. fill_or_drop tok joined m)
      ≡ some t
    → Fits t.prot
fill_body-Fits tok reps m t f h =
    let st = m.prot.memb.state in
    let (j, joined, e) = >>=-eq-some (join_token st tok.members reps m) _ h in
    let (a, g) = join_token-scast_alive st tok.members reps m f.0 joined in
    fill_or_drop-Fits tok j m t f a g e

pub fill_form1-Fits :
    (tok : FormToken) (m t : Machine) → Fits m.prot → fill_form1 tok m ≡ some t → Fits t.prot
unfolding fill_form1
fill_form1-Fits tok m t f h = go tok.body refl
  where
    go : (b : FormBody) → tok.body ≡ b → Fits t.prot
    go (FormBody.reps_body reps) e = fill_body-Fits tok reps m t f (rw e at h)
    go (FormBody.id_body id) e = let k : none ≡ some t = (rw e at h) in cc
