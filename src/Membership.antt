-- ===== src/Membership.antt =====
-- The membership algorithm of daemon/membership.c, over the state of the protocol: the messages and
-- tokens that build a new membership, and the timers between them.
pub mod State
pub mod Shift
pub mod Loss
pub mod Rings
pub mod Form1
pub mod Fill
pub mod Recover
pub mod Form2
pub mod Handlers
pub mod Timers
pub mod Laws
