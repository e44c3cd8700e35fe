-- ===== src/SdkRuntime.antt =====
-- The client runtime of generated SDKs, packages/sdk-runtime/src: a child module for each file.
pub mod OfflineQueue
pub mod CircuitBreaker
pub mod Breaking
pub mod Retry
pub mod Retrying
pub mod LruTtlCache
