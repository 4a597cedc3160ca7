-- ===== src/System.antt =====
-- The scheduling of actors, the timers and the delegates of Source/Core/System.
pub mod Dispatch
pub mod Timer
pub mod Delegate
pub mod Future
