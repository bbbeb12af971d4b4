-- ===== src/Membership/Laws/Outcome.antt =====
-- What a form2 token can do: `Memb_handle_form2` and `Read_form2` of daemon/membership.c.
use java_spread_assignment.Base.{
  ℕ, List, [], ◌∷◌, ◌+◌, ◌≤◌, ◌<◌, not, ltb, arith, length, get_elem?, ◌≡◌, refl, sym, ap, ◌⊎◌, inl,
  inr, Bool, true, Option, none, some, ◌==◌, Bool-cases,
}
use java_spread_assignment.Base.Seqs.{All, >>=-eq-some, some-eq}
use java_spread_assignment.NetTypes.{MembershipId}
use java_spread_assignment.Flow.{max_seq_gap}
use java_spread_assignment.Memb
use java_spread_assignment.Memb.{State}
use java_spread_assignment.Memb.Reps.{RingInfo}
use java_spread_assignment.Prot.State.{FormBody, FormToken}
use java_spread_assignment.Membership.State.{Machine}
use java_spread_assignment.Membership.Fill.{my_ring}
use java_spread_assignment.Membership.Recover.{recover_ring}
use java_spread_assignment.Membership.Form2.{
  is_sound_ring, are_sound_rings, is_id, is_for_me, form2_fixed_size, is_acceptable, read_form2,
  install_form2, adopt, send_form2, enter_evs, count_me, name_membership, trans_time_of,
  take_commit, stamp_ring,
}
use java_spread_assignment.Membership.Handlers.{handle_form2}
use java_spread_assignment.Membership.Rings.{ring_bytes, rings_bytes}
use java_spread_assignment.Membership.Laws.Fits.{&&-true}

-- A ring entry that can be read.
abbrev pub IsSound : RingInfo → Type 0
IsSound r =
    (1 ≤ r.num_trans)
    × (r.num_trans ≤ length r.commit)
    × (length r.commit ≤ 128)
    × (length r.holes ≤ max_seq_gap)

-- A token that is for the daemon, for its last attempt, and in one piece: 524 is the size of the
-- members and the identifier.
pub record Accepted (header_ok : Bool) (tot_len : ℕ) (tok : FormToken) (m : Machine) : Type 0 where
  pub header : header_ok ≡ true
  pub fixed : 528 ≤ tot_len
  pub attempt_id : tok.head.memb_id.proc_id ≡ m.form1_memb_id.proc_id
  pub attempt_time : tok.head.memb_id.time ≡ m.form1_memb_id.time
  pub next : get_elem? tok.members.members tok.members.num_members ≡ some m.prot.my.id
  pub room : tok.members.num_members + tok.members.num_pending < 128
  pub pending : 0 < tok.members.num_pending
  pub rings : All IsSound tok.rings
  pub whole : 524 + rings_bytes tok.rings ≤ tot_len

are_sound_rings-IsSound :
    (tot_len n : ℕ) (rs : List RingInfo) → are_sound_rings tot_len n rs ≡ true → All IsSound rs
unfolding are_sound_rings
are_sound_rings-IsSound tot_len n [] h = tt
are_sound_rings-IsSound tot_len n (r ∷ rs) h =
    let (one, more) = &&-true (is_sound_ring r) _ h in
    let (_, rest) = &&-true (not (ltb tot_len (n + ring_bytes r))) _ more in
    (
      (ground arith, ground arith, ground arith, ground arith),
      are_sound_rings-IsSound tot_len (n + ring_bytes r) rs rest,
    )

are_sound_rings-whole :
    (tot_len n : ℕ) (rs : List RingInfo)
    → are_sound_rings tot_len n rs ≡ true
    → n ≤ tot_len
    → n + rings_bytes rs ≤ tot_len + 4
unfolding are_sound_rings
are_sound_rings-whole tot_len n [] h l = omega arith
are_sound_rings-whole tot_len n (r ∷ rs) h l =
    let (_, more) = &&-true (is_sound_ring r) _ h in
    let (fit, rest) = &&-true (not (ltb tot_len (n + ring_bytes r))) _ more in
    let within : n + ring_bytes r ≤ tot_len = ground arith in
    omega (arith, are_sound_rings-whole tot_len (n + ring_bytes r) rs rest within)

is_id-some : (id : ℕ) (o : Option ℕ) → is_id id o ≡ true → o ≡ some id
is_id-some id none h = cc
is_id-some id (some k) h = ap some (ground arith)

pub is_acceptable-Accepted :
    (header_ok : Bool) (tot_len : ℕ) (tok : FormToken) (m : Machine)
    → is_acceptable header_ok tot_len tok m ≡ true
    → Accepted header_ok tot_len tok m
unfolding is_acceptable is_for_me Memb.is_equal
is_acceptable-Accepted header_ok tot_len tok m h =
    let (ok, h1) = &&-true header_ok _ h in
    let (long, h2) = &&-true (not (ltb tot_len form2_fixed_size)) _ h1 in
    let (same, h3) = &&-true (Memb.is_equal tok.head.memb_id m.form1_memb_id) _ h2 in
    let (mine, sound) = &&-true (is_for_me m.prot.my.id tok.members) _ h3 in
    let (some_left, m1) = &&-true (not (tok.members.num_pending == 0)) _ mine in
    let (room, next) = &&-true (ltb (tok.members.num_members + tok.members.num_pending) 128) _ m1 in
    let (p, t) = &&-true (tok.head.memb_id.proc_id == m.form1_memb_id.proc_id) _ same in
    record {
      header = ok;
      fixed = ground arith;
      attempt_id = ground arith;
      attempt_time = ground arith;
      next = is_id-some m.prot.my.id _ next;
      room = ground arith;
      pending = ground arith;
      whole =
          omega
            (arith, are_sound_rings-whole tot_len form2_fixed_size tok.rings sound (ground arith));
      rings = are_sound_rings-IsSound tot_len form2_fixed_size tok.rings sound;
    }

-- The daemon has the token of the new membership.
pub record Installed (header_ok : Bool) (tot_len : ℕ) (tok : FormToken) (m t : Machine)
    : Type 0 where
  pub accepted : Accepted header_ok tot_len tok m
  pub ring : (r : RingInfo) × (my_ring m.prot.memb.membership_id tok.rings ≡ some r)
  pub state : t.prot.memb.state ≡ State.evs
  pub alive : t.prot.memb.token_alive ≡ true
  pub aru : t.prot.aru ≡ 0

enter_evs-state :
    (m t : Machine)
    → some (enter_evs m) ≡ some t
    → (t.prot.memb.state ≡ State.evs) × (t.prot.memb.token_alive ≡ true) × (t.prot.aru ≡ 0)
unfolding enter_evs
enter_evs-state m t h =
    let e = some-eq h in
    (
      sym (ap (λ (x : Machine). x.prot.memb.state) e),
      sym (ap (λ (x : Machine). x.prot.memb.token_alive) e),
      sym (ap (λ (x : Machine). x.prot.aru) e),
    )

install_form2-state :
    (now : ℕ) (tok : FormToken) (id : MembershipId) (r : RingInfo) (m t : Machine)
    → install_form2 now tok id r m ≡ some t
    → (t.prot.memb.state ≡ State.evs) × (t.prot.memb.token_alive ≡ true) × (t.prot.aru ≡ 0)
unfolding install_form2
install_form2-state now tok id r m t h =
    let members = count_me tok.members in
    let new = name_membership now (members.num_members == 1) id m in
    let (a, _, h1) = >>=-eq-some (adopt members tok new m) _ h in
    let (s, _, h2) = >>=-eq-some (recover_ring r a.prot) _ h1 in
    let times = trans_time_of now new r in
    let out : FormToken = record {
      head = record tok.head { proc_id = m.prot.my.id };
      members = members;
      body = FormBody.id_body new.id;
      rings = stamp_ring m.prot.memb.membership_id times.0 tok.rings;
    } in
    let v = record a { prot = take_commit r times.0 s; last_time_used = times.1 } in
    let (u, _, e) = >>=-eq-some (send_form2 out v) _ h2 in enter_evs-state u t e

ring-outcome :
    (now : ℕ) (header_ok : Bool) (tot_len : ℕ) (tok : FormToken) (id : MembershipId)
    (o : Option RingInfo) (m t : Machine)
    → is_acceptable header_ok tot_len tok m ≡ true
    → my_ring m.prot.memb.membership_id tok.rings ≡ o
    → elim o [ none ↦ some m | some r ↦ install_form2 now tok id r m ] ≡ some t
    → (t ≡ m) ⊎ Installed header_ok tot_len tok m t
ring-outcome now header_ok tot_len tok id none m t acc mine h = inl (sym (some-eq h))
ring-outcome now header_ok tot_len tok id (some r) m t acc mine h =
    let (st, al, aru) = install_form2-state now tok id r m t h in
    inr (record {
      accepted = is_acceptable-Accepted header_ok tot_len tok m acc;
      ring = (r, mine);
      state = st;
      alive = al;
      aru = aru;
    })

read_form2-outcome :
    (now : ℕ) (header_ok : Bool) (tot_len : ℕ) (tok : FormToken) (m t : Machine)
    → read_form2 now header_ok tot_len tok m ≡ some t
    → (t ≡ m) ⊎ Installed header_ok tot_len tok m t
unfolding read_form2
read_form2-outcome now header_ok tot_len tok m t h = go tok.body refl
  where
    go : (b : FormBody) → tok.body ≡ b → (t ≡ m) ⊎ Installed header_ok tot_len tok m t
    go (FormBody.reps_body reps) e = let k : none ≡ some t = (rw e at h) in cc
    go (FormBody.id_body id) e = elim (Bool-cases (is_acceptable header_ok tot_len tok m)) [
      | inl b ↦
          ring-outcome now header_ok tot_len tok id (my_ring m.prot.memb.membership_id tok.rings) m
            t b refl (rw (e, b) at h)
      | inr b ↦ let k : some m ≡ some t = (rw (e, b) at h) in inl (sym (some-eq k))
    ]

-- A form2 token that does not end the daemon with a fatal alarm either changes nothing, or the daemon was
-- in FORM, the token came in one piece, long enough for all the rings that it says it has, is of the
-- daemon's last attempt, has members to come and room for them, the daemon as the next of them, sound
-- ring entries and one of the daemon's ring, and the daemon is in EVS with a live token
-- and `Aru` 0.
pub form2_outcome :
    (st : State) (now : ℕ) (header_ok : Bool) (tot_len : ℕ) (tok : FormToken) (m t : Machine)
    → handle_form2 st now header_ok tot_len tok m ≡ some t
    → (t ≡ m) ⊎ ((st ≡ State.form) × Installed header_ok tot_len tok m t)
unfolding handle_form2
form2_outcome State.form now header_ok tot_len tok m t h =
    elim (read_form2-outcome now header_ok tot_len tok m t h) [
      | inl e ↦ inl e
      | inr i ↦ inr (refl, i)
    ]
form2_outcome State.op now header_ok tot_len tok m t h = inl (sym (some-eq h))
form2_outcome State.seg now header_ok tot_len tok m t h = inl (sym (some-eq h))
form2_outcome State.represented now header_ok tot_len tok m t h = inl (sym (some-eq h))
form2_outcome State.gather now header_ok tot_len tok m t h = inl (sym (some-eq h))
form2_outcome State.evs now header_ok tot_len tok m t h = inl (sym (some-eq h))
