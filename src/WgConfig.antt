-- ===== src/WgConfig.antt =====
-- The WireGuard config file: its generation (pia/wg.go) and the reading of its endpoint
-- (pia/health.go).
pub mod Endpoint
pub mod Generate
