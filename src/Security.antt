-- ===== src/Security.antt =====
-- The encryption of the credentials that travelers store.
pub mod Keyring
mod Examples
