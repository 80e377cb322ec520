-- ===== src/Fields/Extensions.antt =====
-- `EXTENSION_BLOCK_FIELD_NAMES`,
-- console/ui/src/entities/cluster/expert-mode/extensions-block/model/const.ts.
use postgresql_cluster.Common.{String}

abbrev pub extensions : String
extensions = "extensions"

abbrev pub is_enabled : String
is_enabled = "isEnabled"
