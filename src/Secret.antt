-- ===== src/Secret.antt =====
-- Secrets: `getSecretBodyFromValues` and `getAddSecretFormContentByType` of
-- console/ui/src/entities/secret-form-block/lib/functions.ts, and the schema of
-- console/ui/src/features/add-secret/model/validation.ts.
mod Body
mod Schema
pub mod Laws
mod Tests
unfoldable pub use Body.*
unfoldable pub use Schema.*
