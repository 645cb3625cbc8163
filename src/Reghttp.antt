-- ===== src/Reghttp.antt =====
-- internal/reghttp/http.go: requests to the hosts of a registry, with retries and backoffs.
pub mod Backoff
pub mod Delay
pub mod Next
pub mod Turns
pub mod Bounds
pub mod NotFound
pub mod Order
mod Tests
