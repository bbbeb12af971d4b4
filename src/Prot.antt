-- ===== src/Prot.antt =====
-- daemon/protocol.c: the token ring protocol. The children hold the state and the functions, and
-- then what is proved of them.
pub mod State
pub mod Frag
pub mod Deliver
pub mod Discard
pub mod Send
pub mod Hurry
pub mod Bcast
pub mod Retrans
pub mod Token
pub mod Threshold
pub mod Reload
pub mod Laws
