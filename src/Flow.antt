-- ===== src/Flow.antt =====
-- daemon/flow_control.c: how many new packets a daemon may send while it holds the token. The
-- windows are int16, `flow_control` is an int16 of the token, so all are integers here.
pub mod Bounds
use java_spread_assignment.Base.{
  ℕ, zero, ◌+◌, Bool, true, false, not, Option, none, some, ltb, if◌then◌else◌, ◌||◌,
}
use java_spread_assignment.Base.Int.{ℤ, pos, negsuc, ◌+ℤ◌, ◌-ℤ◌, ltb_ℤ}
use java_spread_assignment.Memb.{State, is_evs}

-- The static variables, and the configuration's parameters that they are read from.
pub record Flow : Type 0 where
  pub window : ℤ
  pub personal_window : ℤ
  pub accelerated_ring : Bool
  pub accelerated_window : ℤ

-- `FC_init`, from the values that `Conf_get_window` and the others return.
unfoldable pub init : ℤ → ℤ → Bool → ℤ → Flow
init window personal_window accelerated_ring accelerated_window = record {
  window = window;
  personal_window = personal_window;
  accelerated_ring = accelerated_ring;
  accelerated_window = accelerated_window;
}

-- `FC_signal_conf_reload` reads them again.
unfoldable pub fc_signal_conf_reload : ℤ → ℤ → Bool → ℤ → Flow
unfolding init
fc_signal_conf_reload window personal_window accelerated_ring accelerated_window =
    init window personal_window accelerated_ring accelerated_window

abbrev pub max_seq_gap : ℕ
max_seq_gap = 1600

-- `if (a > hi) a = hi;`
abbrev pub cut_at : ℤ → ℤ → ℤ
cut_at hi a = if ltb_ℤ hi a then hi else a

unfoldable pub clamp_allowed : Flow → ℤ → ℤ
clamp_allowed fc a =
    let floor = if ltb_ℤ a (pos 0) then pos 0 else a in
    cut_at fc.personal_window (cut_at fc.window floor)

unfoldable pub allowed : Flow → State → ℕ → ℕ → ℤ → ℤ
unfolding clamp_allowed
allowed fc state highest_seq aru flow_control =
    if is_evs state
    then pos 0
    else if ltb (aru + max_seq_gap) highest_seq
    then pos 0
    else clamp_allowed fc (fc.window +ℤ fc.personal_window -ℤ flow_control)

abbrev pub keep_or : ℤ → ℤ → ℤ
keep_or old (negsuc zero) = old
keep_or old new = new

-- A monitor's request: refused in safe mode and from a process that is not in the configuration, and
-- otherwise each value but -1 is taken over. The three values are those of the message's array after
-- the byte order is corrected.
unfoldable pub handle_message : Bool → Option ℕ → ℤ → ℤ → ℤ → Flow → Flow
handle_message dangerous_monitor sender_seg temp_window temp_personal temp_accelerated fc =
    if not dangerous_monitor then fc else elim sender_seg [
      | none ↦ fc
      | some i ↦ record fc {
        window = keep_or fc.window temp_window;
        personal_window = keep_or fc.personal_window temp_personal;
        accelerated_window = keep_or fc.accelerated_window temp_accelerated;
      }
    ]
