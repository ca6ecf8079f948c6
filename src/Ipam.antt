-- ===== src/Ipam.antt =====
-- ipam.go: planning of an in-memory IPv4 address pool.
pub mod Range
pub mod State
pub mod Pool
