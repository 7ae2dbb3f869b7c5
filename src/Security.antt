-- ===== src/Security.antt =====
-- libs/common/src/security, guards and rate-limit: signed calls between the services, their guard,
-- and the rate limiter.
pub mod Hmac
pub mod Replay
pub mod Guard
pub mod Throttle
