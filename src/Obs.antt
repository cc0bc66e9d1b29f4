-- ===== src/Obs.antt =====
-- internal/obs: what a run has used.
pub mod Usage
