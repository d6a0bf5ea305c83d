-- ===== src/Secrets.antt =====
-- Sealing and storing secrets: packages/crypto/src/secret-vault.ts and
-- packages/database/src/secret-store.ts.
pub mod Vault
pub mod Opening
pub mod Store
mod Tests
