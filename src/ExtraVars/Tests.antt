-- ===== src/ExtraVars/Tests.antt =====
-- Runs of the extra vars.
use postgresql_cluster.Common.{true, ◌≡◌, refl, some, none, String, if◌then◌else◌}
use postgresql_cluster.Js.{
  Js, undefined, bool, num, str, obj, arr, cons, nil, Props, end, prop, lookup, entries, ok,
  Ensures, field,
}
use postgresql_cluster.Fields.Extensions
use postgresql_cluster.Fields.Databases
use postgresql_cluster.Fields.Backups
use postgresql_cluster.Constants.BackupMethods
use postgresql_cluster.Samples.{result_or}
use postgresql_cluster.ExtraVars.Extensions.{no_extensions, enable_key, get_extensions}
use postgresql_cluster.ExtraVars.Base.{expert_base_extra_vars}
use postgresql_cluster.ExtraVars.ExtensionLaws.{is_enabled, pairs, get_extensions_lem}
use postgresql_cluster.ExtraVars.BackupLaws.{InstallsChosen}
use postgresql_cluster.ExtraVars.BaseLaws.{expert_base-Installs}

-- One database and a third party extension for it; backups with pgBackRest.
abbrev chosen : Props
chosen =
    prop "timescaledb"
      (obj (prop "db" (arr (cons (str "1") nil)) (prop "isThirdParty" (bool true) end))) end

abbrev expert_values : Props
expert_values = prop Extensions.extensions (obj chosen) (
    prop Databases.names (obj (prop "1" (str "app") end)) (
      prop Backups.is_backups_enabled (bool true)
        (prop Backups.backup_method (str BackupMethods.pg_back_rest) end)))

get_extensions_lem_example :
    ((k : String)
      → lookup (result_or no_extensions (get_extensions expert_values)).extra_vars (enable_key k)
        ≡ (if is_enabled k (entries chosen) then some (bool true) else none))
    × ((result_or no_extensions (get_extensions expert_values)).db
        ≡ pairs (field expert_values Databases.names) (entries chosen))
unfolding get_extensions postgresql_cluster.Js.field postgresql_cluster.Js.traverse
get_extensions_lem_example =
    get_extensions_lem expert_values chosen (result_or no_extensions (get_extensions expert_values))
      refl refl

expert_base-Installs_example :
    InstallsChosen expert_values (result_or end (expert_base_extra_vars expert_values))
unfolding expert_base_extra_vars postgresql_cluster.Js.field postgresql_cluster.Js.traverse
    postgresql_cluster.Js.map_items
expert_base-Installs_example =
    expert_base-Installs expert_values (result_or end (expert_base_extra_vars expert_values)) refl
