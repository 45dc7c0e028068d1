-- ===== src/Consistency/Handlers.antt =====
-- The handlers of internal/service/order.go keep the stores consistent.
pub mod Cancel
pub mod Pay
pub mod Create
pub mod Timeout
pub mod Draw
pub mod CacheAside
pub mod Status
