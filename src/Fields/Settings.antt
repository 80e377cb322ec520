-- ===== src/Fields/Settings.antt =====
-- `SETTINGS_FORM_FIELDS_NAMES`, console/ui/src/entities/settings/proxy-block/model/constants.ts.
use postgresql_cluster.Common.{String}

abbrev pub http_proxy : String
http_proxy = "http_proxy"

abbrev pub https_proxy : String
https_proxy = "https_proxy"

abbrev pub is_expert_mode_enabled : String
is_expert_mode_enabled = "is_expert_mode_enabled"

abbrev pub is_yaml_enabled : String
is_yaml_enabled = "is_yaml_enabled"
