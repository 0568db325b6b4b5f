-- ===== src/Receivers/Gds.antt =====
-- internal/ingest/gds_events.go: the records of GDS that follow its contract, and those of its OPC UA
-- facade.
pub mod Contract
pub mod Fields
pub mod Facade
pub mod Clean
