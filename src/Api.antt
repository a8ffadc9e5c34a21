-- ===== src/Api.antt =====
-- internal/api: the HTTP handlers, the middleware and the routes.
pub mod Server
pub mod Frame
pub mod Keeps
pub mod Reply
pub mod Register
pub mod Login
pub mod Account
pub mod TwoFactor
pub mod Vault
pub mod Activity
pub mod Router
pub mod Http
pub mod Global
pub mod Docs
