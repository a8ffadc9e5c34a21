-- ===== src/Wasm.antt =====
-- cmd/wasm/main.go: the functions that the browser calls, over internal/crypto and internal/mfa.
-- A panic, which JavaScript sees as an exception, is an outcome. Its text is left out. The zeroing of
-- buffers leaves no trace in values.
pub mod Outcome
pub mod Password
pub mod Bindings
