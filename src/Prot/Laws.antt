-- ===== src/Prot/Laws.antt =====
-- What is proved of the functions of daemon/protocol.c.
pub mod Slots
pub mod Agreed
pub mod Bcast
pub mod Token
pub mod Retrans
pub mod Send
pub mod Stable
pub mod Packing
pub mod Waiting
pub mod Filling
pub mod InOrder
pub mod Alarms
