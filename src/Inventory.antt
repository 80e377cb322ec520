-- ===== src/Inventory.antt =====
-- The inventory of a cluster on servers of one's own: `configureHosts`, `constructDcsEnvs`,
-- `constructBalancersEnvs` and `getLocalMachineEnvs` of
-- console/ui/src/shared/lib/clusterValuesTransformFunctions.ts.
mod Hosts
mod Groups
mod Envs
pub mod HostLaws
mod ServerLaws
pub mod ChildrenLaws
mod Tests
unfoldable pub use Hosts.*
unfoldable pub use Groups.*
unfoldable pub use Envs.*
