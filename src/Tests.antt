-- ===== src/Tests.antt =====
-- Concrete inputs, and the theorems at them.
mod Samples
mod ConfTests
mod RingTests
mod SendTests
mod MembTests
mod NetTests
mod SessionTests
mod TimerTests
mod FormTests
