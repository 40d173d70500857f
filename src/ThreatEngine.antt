-- ===== src/ThreatEngine.antt =====
-- The scoring service, threat-engine/app.
pub mod Signal
pub mod Entropy
pub mod Anomaly
pub mod Features
pub mod Model
pub mod Api
pub mod Consumer
pub mod Training
