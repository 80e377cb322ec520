-- ===== src/Api.antt =====
-- The endpoints of the console's service, as the client of console/ui/src/shared/api knows them:
-- the request of each, the tags that the answer to a query provides to the cache of the client,
-- and the tags that a mutation makes stale.
mod Kinds
pub mod Clusters
pub mod Secrets
pub mod Environments
pub mod Operations
pub mod Projects
pub mod Settings
pub mod Other
pub mod Deployments
mod Laws
mod Tests
unfoldable pub use Kinds.*
