-- ===== src/Clocks.antt =====
-- code/hld/logical_clocks.py: Lamport, vector and hybrid clocks, and the stores that order writes by
-- them. The locks are not modelled: each method is one step.
pub mod Lamport
pub mod Vector
pub mod Stores
pub mod Hybrid
pub mod Causality
pub mod Siblings
