-- ===== src/Settings/Tests.antt =====
-- Runs of the submission of the settings.
use postgresql_cluster.Common.{true, false, ◌≡◌, none, [], refl}
use postgresql_cluster.Js.{bool, str, null, Props, end, prop, ok, field}
use postgresql_cluster.Fields.Settings
use postgresql_cluster.Settings.{Storage, submit_settings, read_mode}
use postgresql_cluster.Settings.Laws.{submit_settings-read_mode}

abbrev form_values : Props
form_values = prop Settings.http_proxy (str "http://proxy") (
    prop Settings.https_proxy (str "") (
      prop Settings.is_expert_mode_enabled (bool true)
        (prop Settings.is_yaml_enabled (bool false) end)))

abbrev dirty_fields : Props
dirty_fields = prop Settings.is_expert_mode_enabled (bool true) end

abbrev empty_storage : Storage
empty_storage = record { is_expert_mode = none; is_yaml_enabled = none }

submit_settings-read_mode_example :
    (read_mode
        (submit_settings dirty_fields true [] (ok null) form_values empty_storage).0.is_expert_mode
      ≡ true)
    × (read_mode
          (submit_settings dirty_fields true []
            (ok null)
            form_values
            empty_storage).0.is_yaml_enabled
        ≡ false)
unfolding field
submit_settings-read_mode_example =
    submit_settings-read_mode dirty_fields form_values true [] (ok null) empty_storage true false
      refl refl refl

abbrev dirty_proxy : Props
dirty_proxy = prop Settings.http_proxy (bool true) end
