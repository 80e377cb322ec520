-- ===== src/Export.antt =====
-- The export of a cluster as an inventory:
-- console/ui/src/features/clusters-table-row-actions/ui/ClusterTableExportButton.tsx.
mod Keys
mod Vars
mod Groups
mod Button
mod KeyLaws
mod AssignLaws
mod VarLaws
mod GroupLaws
mod ButtonLaws
mod Tests
unfoldable pub use Keys.*
unfoldable pub use Vars.*
unfoldable pub use Groups.*
unfoldable pub use Button.*
