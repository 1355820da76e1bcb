-- ===== src/Thread/Steps.antt =====
-- The scheduler as a transition system.
pub mod View
pub mod Keeps
pub mod Ops
pub mod Ticks
pub mod Creates
pub mod Reach
pub mod Booted
