-- ===== src/Fields/Modal.antt =====
-- `CLUSTER_SECRET_MODAL_FORM_FIELD_NAMES`,
-- console/ui/src/features/cluster-secret-modal/model/constants.ts.
use postgresql_cluster.Common.{String}

abbrev pub is_save_to_console : String
is_save_to_console = "isSaveToConsole"
