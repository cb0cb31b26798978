-- ===== src/Service.antt =====
-- internal/service: short codes, validation and the URL service.
pub mod Base62
pub mod CustomCode
pub mod Expiry
pub mod Store
pub mod LongUrl
pub mod UrlService
pub mod Resolve
pub mod Create
pub mod Idempotent
pub mod Concurrent
