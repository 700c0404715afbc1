-- ===== src/Tests.antt =====
-- The theorems at concrete inputs, and runs of the definitions, by component.
mod OutageTests
mod LifetimeTests
mod TunnelTests
mod RefreshTests
mod HealthcheckTests
mod RegionsTests
mod RunsTests
mod GenerateTests
mod PortForwardTests
mod DockerTests
mod TokenTests
mod AlertsTests
mod AtomicWriteTests
mod CliTests
mod RedactTests
mod RequestsTests
mod StatusTests
mod DaemonTests
