-- ===== src/SystemTimeService.antt =====
-- src/platform/linux/system-time-service.c and include/system-settings/system-time-service.h: the
-- asynchronous adapter of systemd's timedated, its typed results, the reading of the cached properties,
-- and the lifetime of a service with calls under way.
pub mod Results
pub mod Reading
pub mod Lifetime
pub mod Requests
pub mod Typed
pub mod Snapshot
pub mod Steps
pub mod References
pub mod Safety
