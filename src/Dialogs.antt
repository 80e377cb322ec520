-- ===== src/Dialogs.antt =====
-- The dialogs that add a project, an environment or a secret, and the buttons that remove a row:
-- console/ui/src/shared/ui/settings-add-entity/ui/index.tsx, and the features that use it or that
-- are named below.
mod Session
mod Used
mod Add
mod Remove
mod UsedLaws
pub mod Laws
mod Tests
unfoldable pub use Session.*
unfoldable pub use Used.*
unfoldable pub use Add.*
unfoldable pub use Remove.*
