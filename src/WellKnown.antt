-- ===== src/WellKnown.antt =====
-- src/wellknown: the well-known types.
pub mod Duration
pub mod Any
