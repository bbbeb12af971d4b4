-- ===== src/Prot/Reload.antt =====
-- `Prot_initiate_conf_reload` and `Prot_token_hurry_event` of daemon/protocol.c.
use java_spread_assignment.Base.{ℕ, Bool, true, false, not, Option, none, some, if◌then◌else◌}
use java_spread_assignment.Base.Int.{ℤ}
use java_spread_assignment.Base.Seqs.{range_from}
use java_spread_assignment.NetTypes.{no_id}
use java_spread_assignment.Conf
use java_spread_assignment.Conf.{Proc, Configuration}
use java_spread_assignment.Flow.{fc_signal_conf_reload}
use java_spread_assignment.Memb.{is_op}
use java_spread_assignment.Prot.State.{
  Prot, emit, net_signal_conf_reload, sess_signal_conf_reload, net_set_partition, e_queue,
  token_loss, zero_timeout,
}
use java_spread_assignment.Prot.Hurry.{prot_token_hurry}

-- What the code of the configuration file, which is not modelled, gives when it has read the file
-- again: the result of `Conf_reload_initiate`, and then `Conf_ref`, `Conf_my` and the flow control's
-- parameters.
pub record Reload : Type 0 where
  pub need_memb_partition : Bool
  pub conf : Configuration
  pub my : Proc
  pub window : ℤ
  pub personal_window : ℤ
  pub accelerated_ring : Bool
  pub accelerated_window : ℤ

-- `My_index = Conf_proc_by_id( My.id, &My )`: -1 leaves `My` as it was.
abbrev pub set_my : Option (ℕ × Proc) → Prot → Prot
set_my none s = record s { my_index = no_id }
set_my (some p) s = record s { my_index = p.0; my = p.1 }

-- `Net_`, `Memb_`, `Sess_` and `FC_signal_conf_reload`, and the protocol's own variables.
unfoldable pub signal_subsystems : Reload → Prot → Prot
unfolding fc_signal_conf_reload
signal_subsystems r s =
    let t = record (emit net_signal_conf_reload s) { conf = r.conf; my = r.my } in
    let u = record (emit sess_signal_conf_reload t) {
      flow =
          fc_signal_conf_reload r.window r.personal_window r.accelerated_ring r.accelerated_window;
    } in
    set_my (Conf.proc_by_id_in_conf r.conf r.my.id) u

-- Each process alone, until the membership of the daemon alone is installed.
unfoldable pub partition_all : Prot → Prot
partition_all s =
    let t = emit (net_set_partition (range_from 0 (Conf.num_procs s.conf))) s in
    record t { in_reload_singleton = true }

-- Nothing happens outside OP; in OP the token is given up at once.
unfoldable pub initiate_conf_reload : Reload → Prot → Prot
unfolding signal_subsystems partition_all
initiate_conf_reload r s =
    let t = signal_subsystems r (record s { need_conf_reload = false }) in
    let u = if r.need_memb_partition then partition_all t else t in
    if not (is_op s.memb.state) then s else emit (e_queue token_loss zero_timeout) u

unfoldable pub token_hurry_event : Prot → Option Prot
unfolding prot_token_hurry
token_hurry_event s = prot_token_hurry s
