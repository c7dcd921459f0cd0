-- ===== src/Cutover.antt =====
-- The tools of src/cutover that move the shop from one inventory writer to the other.
pub mod Switch
pub mod Counters
