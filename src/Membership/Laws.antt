-- ===== src/Membership/Laws.antt =====
-- What is proved of the membership algorithm.
pub mod Quiet
pub mod Level
pub mod Recovery
pub mod Fits
pub mod Waiting
pub mod Forming
pub mod Joining
pub mod Reading
pub mod Messages
pub mod Steps
pub mod Delivery
pub mod Answers
pub mod Sending
pub mod Rounds
pub mod Admission
pub mod Daemon
pub mod Aru
pub mod Packets
pub mod Firing
pub mod Runs
pub mod Progress
pub mod Backoff
pub mod Recount
pub mod Outcome
pub mod Rejected
pub mod Times
