-- ===== src/Validation.antt =====
-- The validation of the cluster form: `ClusterFormSchema` of
-- console/ui/src/widgets/cluster-form/model/validation.ts, and the schemas of the blocks in
-- console/ui/src/entities/cluster/**/model/validation.ts. A `when` of yup gives the schema that
-- its function returns for the values of the fields that it names.
mod Cloud
mod Local
mod Servers
mod Expert
mod Form
mod ServerLaws
mod CredentialLaws
mod ConfigLaws
mod DcsLaws
mod Tests
unfoldable pub use Cloud.*
unfoldable pub use Local.*
unfoldable pub use Servers.*
unfoldable pub use Expert.*
unfoldable pub use Form.*
