-- ===== src/Request.antt =====
-- The request that creates a cluster: `convertObjectValueToBase64Format`,
-- `getRequestCloudParams`, `getRequestLocalMachineParams` and `mapFormValuesToRequestFields` of
-- console/ui/src/shared/lib/clusterValuesTransformFunctions.ts, and `mapFormValuesToYamlEditor`
-- of console/ui/src/widgets/yaml-editor-form/lib/functions.ts.
mod Imports
mod Envs
mod Fields
pub mod FieldLaws
mod ExistingLaws
pub mod EditedLaws
pub mod CustomLaws
mod EnvLaws
mod SecrecyLaws
mod IgnoreLaws
mod Tests
unfoldable pub use Imports.*
unfoldable pub use Envs.*
unfoldable pub use Fields.*
