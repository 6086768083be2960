-- ===== src/Telemetry.antt =====
-- internal/telemetry: the buffered writer of request logs, and the latencies of the providers.
pub mod LogWriter
mod Tests
pub mod Latency
