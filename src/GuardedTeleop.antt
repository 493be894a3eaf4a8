-- ===== src/GuardedTeleop.antt =====
-- lekiwi_teleop/lekiwi_teleop/guarded_base_teleop.py: driving the base under supervision.
pub mod Ramp
pub mod Limits
pub mod Directional
pub mod HeldKeys
pub mod Session
pub mod Window
mod Tests
