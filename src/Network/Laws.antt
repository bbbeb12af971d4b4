-- ===== src/Network/Laws.antt =====
-- Lemmas and theorems on daemon/network.c.
pub mod Successor
pub mod TokenRing
pub mod Routing
pub mod Order
pub mod Reach
pub mod Admission
