-- ===== src/Ingestion.antt =====
-- Package ingestion: uploads, their records, and the processing of their jobs
-- (gateway-go/internal/ingestion).
pub mod DocType
pub mod Records
pub mod Documents
pub mod Jobs
pub mod Service
pub mod Process
pub mod System
pub mod Flights
pub mod Fixtures
mod Tests
