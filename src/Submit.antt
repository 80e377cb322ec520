-- ===== src/Submit.antt =====
-- The submission of the cluster form, with the secret that it may save first: `onSubmit`,
-- `submitLocalCluster` and `submitCloudCluster` of console/ui/src/widgets/cluster-form/ui/index.tsx
-- and of console/ui/src/widgets/yaml-editor-form/lib/hooks.tsx, and `onSubmit` of
-- console/ui/src/features/cluster-secret-modal/ui/index.tsx. A component's lifetime is a
-- sequence of attempts, each with the replies of the server to its requests.
pub mod Session
mod Actions
mod Form
mod Editor
mod Modal
mod Page
mod Keeps
pub mod Leads
pub mod SecretLaws
pub mod ComponentLaws
mod PageLaws
mod LeaveSteps
mod LeaveLaws
mod CountLaws
mod Tests
unfoldable pub use Session.*
unfoldable pub use Actions.*
unfoldable pub use Form.*
unfoldable pub use Editor.*
unfoldable pub use Modal.*
unfoldable pub use Page.*
