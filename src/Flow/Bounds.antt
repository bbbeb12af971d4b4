-- ===== src/Flow/Bounds.antt =====
-- The bounds of flow control.
use java_spread_assignment.Base.{ℕ, ◌+◌, ◌≤◌, ◌≡◌, ◌≢◌, ◌⊎◌, arith}
use java_spread_assignment.Base.Int.{ℤ, pos, ◌≤ℤ◌, ◌+ℤ◌, ◌-ℤ◌}
use java_spread_assignment.Memb.{State}
use java_spread_assignment.Flow.{Flow, allowed, max_seq_gap}

-- With windows that are not negative, the allowance is between 0 and each window. It is 0, or else
-- the load that the token carries stays within the sum of the windows with the allowance added, the
-- daemon is not in EVS, and it is at most MAX_SEQ_GAP ahead of `Aru`.
pub allowed_bounds :
    (fc : Flow) (state : State) (highest_seq aru : ℕ) (load : ℤ)
    → pos 0 ≤ℤ fc.window
    → pos 0 ≤ℤ fc.personal_window
    → let a = allowed fc state highest_seq aru load in
      (pos 0 ≤ℤ a)
      × (a ≤ℤ fc.window)
      × (a ≤ℤ fc.personal_window)
      × ((a ≡ pos 0)
          ⊎ ((load +ℤ a ≤ℤ fc.window +ℤ fc.personal_window)
              × (state ≢ State.evs)
              × (highest_seq ≤ aru + max_seq_gap)))
unfolding allowed ◌+ℤ◌ ◌-ℤ◌
allowed_bounds fc state highest_seq aru load h k =
    (ground arith, ground arith, ground arith, ground arith)
