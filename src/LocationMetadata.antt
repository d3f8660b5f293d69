-- ===== src/LocationMetadata.antt =====
-- src/platform/linux/location-metadata.c: the named locality beside the temporal policy. Its record is
-- published through a journal: staged in `location.pending`, then committed to `location.ini`.
pub mod Defs
pub mod Recovery
pub mod Files
pub mod Untouched
pub mod RoundTrip
pub mod Outcome
pub mod Recovered
pub mod Crash
pub mod Agreement
pub mod AfterCrash
