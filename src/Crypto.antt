-- ===== src/Crypto.antt =====
-- internal/crypto: keys, authenticated encryption and the shape of an item.
pub mod Text
pub mod Kdf
pub mod Keys
pub mod Aead
pub mod Item
