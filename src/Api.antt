-- ===== src/Api.antt =====
-- backend/app/services/api: errors.py and base_client.py.
pub mod Breaker
pub mod Limiter
pub mod Errors
pub mod Client
