-- ===== src/Tests.antt =====
-- The theorems at small concrete inputs.
mod Data
mod Auth
mod Storage
mod Api
mod Crypto
mod Wasm
mod Config
mod Register
mod Global
mod History
