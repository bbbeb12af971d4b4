-- ===== src/Membership/Laws/Steps.antt =====
-- What a daemon waits for, through every step of the membership algorithm of daemon/membership.c.
use java_spread_assignment.Base.{ℕ, ◌%◌, ◌≡◌, refl, Bool, not, ◌&&◌, Option, none, some, ◌==◌}
use java_spread_assignment.Base.Seqs.{>>=-eq-some}
use java_spread_assignment.NetTypes.{is_alive, is_join, is_refer, is_regular, is_form1, is_form2}
use java_spread_assignment.Conf
use java_spread_assignment.Conf.{Proc, Configuration}
use java_spread_assignment.Memb.{State}
use java_spread_assignment.Memb.Sets.{proc_of}
use java_spread_assignment.Memb.Reps.{insert_rep}
use java_spread_assignment.Prot.State.{Packet, FormToken}
use java_spread_assignment.Membership.State.{Machine}
use java_spread_assignment.Membership.Shift.{lookup_new_members}
use java_spread_assignment.Membership.Fill.{fill_form1}
use java_spread_assignment.Membership.Handlers.{
  Join, handle_join, try_referred, handle_refer, foreign_known, foreign_from, handle_foreign,
  handle_form1, handle_form2, MembMessage, handle_message, handle_token,
}
use java_spread_assignment.Membership.Timers.{Fits}
use java_spread_assignment.Membership.Laws.Fits.{Fits-some, Fits-if}
use java_spread_assignment.Membership.Laws.Waiting.{lookup_new_members-Fits}
use java_spread_assignment.Membership.Laws.Joining.{fill_form1-Fits}
use java_spread_assignment.Membership.Laws.Reading.{read_form2-Fits}
use java_spread_assignment.Membership.Laws.Messages.{
  if-Fits, lost_with-Fits, handle_alive-Fits, join_op-Fits, join_seg-Fits, join_represented-Fits,
  join_gather-Fits,
}

handle_join-Fits :
    (st : State) (j : Join) (m t : Machine)
    → m.prot.memb.state ≡ st
    → Fits m.prot
    → handle_join st j m ≡ some t
    → Fits t.prot
unfolding handle_join
handle_join-Fits State.op j m t s f h = join_op-Fits j m t s f h
handle_join-Fits State.seg j m t s f h = join_seg-Fits j m t s f h
handle_join-Fits State.represented j m t s f h = join_represented-Fits j m t s f h
handle_join-Fits State.gather j m t s f h = join_gather-Fits j m t s f h
handle_join-Fits State.form j m t s f h = Fits-some m t h f
handle_join-Fits State.evs j m t s f h =
    lost_with-Fits m.prot.memb.future_membership j.proc_id m t f h

try_referred-Fits :
    (type : ℕ) (o : Option Proc) (m t : Machine)
    → Fits m.prot
    → try_referred type o m ≡ some t
    → Fits t.prot
unfolding try_referred
try_referred-Fits type none m t f h = Fits-some m t h f
try_referred-Fits type (some p) m t f h =
    let (r, _, k) =
      >>=-eq-some
        (insert_rep m.prot.conf m.potential_reps
          (record { proc_id = p.id; type = type % 65536; seg_index = p.seg_index }))
        _ h in
    Fits-some (record m { potential_reps = r.1 }) t k f

handle_refer-Fits :
    (st : State) (id type : ℕ) (m t : Machine)
    → Fits m.prot
    → handle_refer st id type m ≡ some t
    → Fits t.prot
unfolding handle_refer
handle_refer-Fits State.gather id type m t f h =
    try_referred-Fits type (proc_of m.prot.conf id) m t f h
handle_refer-Fits State.op id type m t f h = Fits-some m t h f
handle_refer-Fits State.seg id type m t f h = Fits-some m t h f
handle_refer-Fits State.represented id type m t f h = Fits-some m t h f
handle_refer-Fits State.form id type m t f h = Fits-some m t h f
handle_refer-Fits State.evs id type m t f h = Fits-some m t h f

foreign_known-Fits :
    (p : Packet) (m t : Machine) → Fits m.prot → foreign_known p m ≡ some t → Fits t.prot
unfolding foreign_known
foreign_known-Fits p m t f h =
    let (leader_id, _, h1) = >>=-eq-some (Conf.leader m.prot.memb.membership) _ h in
    if-Fits (leader_id == m.prot.my.id) (some (lookup_new_members m)) _ t
      (λ e. Fits-some (lookup_new_members m) t e (lookup_new_members-Fits m f))
      (λ x.
        let (id, _, e) =
          >>=-eq-some (Conf.seg_leader m.prot.memb.membership m.prot.my.seg_index) _ x in
        Fits-some _ t e (Fits-if ((id == m.prot.my.id) && not m.prot.memb.foreign_found) _ m f f))
      h1

foreign_from-Fits :
    (o : Option Proc) (p : Packet) (m t : Machine)
    → Fits m.prot
    → foreign_from o p m ≡ some t
    → Fits t.prot
unfolding foreign_from
foreign_from-Fits none p m t f h = Fits-some m t h f
foreign_from-Fits (some q) p m t f h = foreign_known-Fits p m t f h

handle_foreign-Fits :
    (st : State) (p : Packet) (m t : Machine)
    → Fits m.prot
    → handle_foreign st p m ≡ some t
    → Fits t.prot
unfolding handle_foreign
handle_foreign-Fits State.op p m t f h =
    foreign_from-Fits (proc_of m.prot.conf p.head.proc_id) p m t f h
handle_foreign-Fits State.seg p m t f h = Fits-some m t h f
handle_foreign-Fits State.represented p m t f h = Fits-some m t h f
handle_foreign-Fits State.gather p m t f h = Fits-some m t h f
handle_foreign-Fits State.form p m t f h = Fits-some m t h f
handle_foreign-Fits State.evs p m t f h = Fits-some m t h f

handle_form1-Fits :
    (st : State) (tok : FormToken) (m t : Machine)
    → Fits m.prot
    → handle_form1 st tok m ≡ some t
    → Fits t.prot
unfolding handle_form1
handle_form1-Fits State.op tok m t f h =
    let (leader_id, _, h1) = >>=-eq-some (Conf.leader m.prot.memb.membership) _ h in
    if-Fits (leader_id == m.prot.my.id) (some m) (fill_form1 tok m) t (λ e. Fits-some m t e f)
      (λ x. fill_form1-Fits tok m t f x) h1
handle_form1-Fits State.seg tok m t f h = Fits-some m t h f
handle_form1-Fits State.represented tok m t f h = fill_form1-Fits tok m t f h
handle_form1-Fits State.gather tok m t f h = fill_form1-Fits tok m t f h
handle_form1-Fits State.form tok m t f h = Fits-some m t h f
handle_form1-Fits State.evs tok m t f h = Fits-some m t h f

handle_form2-Fits :
    (st : State) (now : ℕ) (header_ok : Bool) (tot_len : ℕ) (tok : FormToken) (m t : Machine)
    → m.prot.memb.state ≡ st
    → Fits m.prot
    → handle_form2 st now header_ok tot_len tok m ≡ some t
    → Fits t.prot
unfolding handle_form2
handle_form2-Fits State.form now header_ok tot_len tok m t s f h =
    read_form2-Fits now header_ok tot_len tok m t s f h
handle_form2-Fits State.op now header_ok tot_len tok m t s f h = Fits-some m t h f
handle_form2-Fits State.seg now header_ok tot_len tok m t s f h = Fits-some m t h f
handle_form2-Fits State.represented now header_ok tot_len tok m t s f h = Fits-some m t h f
handle_form2-Fits State.gather now header_ok tot_len tok m t s f h = Fits-some m t h f
handle_form2-Fits State.evs now header_ok tot_len tok m t s f h = Fits-some m t h f

pub handle_message-Fits :
    (msg : MembMessage) (m t : Machine) → Fits m.prot → handle_message msg m ≡ some t → Fits t.prot
unfolding handle_message
handle_message-Fits msg m t f h =
    let p = msg.packet.head in
    let st = m.prot.memb.state in
    if-Fits (is_alive p.type) _ _ t (λ x. handle_alive-Fits st p.proc_id m t refl f x)
      (λ y.
        if-Fits (is_join p.type) _ _ t (λ x. handle_join-Fits st _ m t refl f x)
          (λ z.
            if-Fits (is_refer p.type) _ _ t
              (λ x. handle_refer-Fits st p.memb_id.proc_id p.memb_id.time m t f x)
              (λ w.
                if-Fits (is_regular p.type) _ (some m) t
                  (λ x. handle_foreign-Fits st msg.packet m t f x) (λ e. Fits-some m t e f) w)
              z)
          y)
      h

pub handle_token-Fits :
    (now : ℕ) (header_ok : Bool) (tot_len : ℕ) (tok : FormToken) (m t : Machine)
    → Fits m.prot
    → handle_token now header_ok tot_len tok m ≡ some t
    → Fits t.prot
unfolding handle_token
handle_token-Fits now header_ok tot_len tok m t f h =
    let st = m.prot.memb.state in
    if-Fits (is_form1 tok.head.type) _ _ t (λ x. handle_form1-Fits st tok m t f x)
      (λ y.
        if-Fits (is_form2 tok.head.type) _ (some m) t
          (λ x. handle_form2-Fits st now header_ok tot_len tok m t refl f x)
          (λ e. Fits-some m t e f) y)
      h
