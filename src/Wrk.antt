-- ===== src/Wrk.antt =====
-- pkg/wrk: the output of the load generator wrk, its parsing and combining.
pub mod Output
pub mod Parse
pub mod Combine
pub mod Quiet
pub mod Totals
