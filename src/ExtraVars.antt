-- ===== src/ExtraVars.antt =====
-- The `extra_vars` of a request that creates a cluster, from the values of the form:
-- `getCommonExtraVars`, `getCloudProviderExtraVars`, `getLocalMachineExtraVars`, `getExtensions`
-- and `getBaseClusterExtraVars` of
-- console/ui/src/shared/lib/clusterValuesTransformFunctions.ts. The flag `expert` is
-- `IS_EXPERT_MODE` of console/ui/src/shared/model/constants.ts.
mod Cloud
mod Local
mod Extensions
mod Backups
mod Base
mod BackupLaws
mod ExtensionLaws
mod BaseLaws
mod Tests
unfoldable pub use Cloud.*
unfoldable pub use Local.*
unfoldable pub use Extensions.*
unfoldable pub use Backups.*
unfoldable pub use Base.*
