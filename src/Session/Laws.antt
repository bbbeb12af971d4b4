-- ===== src/Session/Laws.antt =====
-- Lemmas and theorems on the table of sessions of daemon/session.c.
pub mod Chains
pub mod Distinct
pub mod Mailboxes
pub mod Lookup
pub mod Hashing
pub mod Sorted
pub mod Removal
pub mod Taking
pub mod Unhashing
