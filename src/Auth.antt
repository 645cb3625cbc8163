-- ===== src/Auth.antt =====
-- internal/auth/auth.go: the challenges of a registry and the scopes of a bearer token.
pub mod Header
pub mod Scope
pub mod Bearer
