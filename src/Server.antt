-- ===== src/Server.antt =====
-- server/: the control plane.
pub mod Models
pub mod Status
pub mod Returns
pub mod Timestamp
pub mod Fingerprint
pub mod Alerts
pub mod RetryFiles
pub mod Executability
pub mod TaskRuns
pub mod FilesJson
pub mod Receipts
pub mod ReportFiles
pub mod Manifests
