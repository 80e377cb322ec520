-- ===== src/ExtraVars/Backups.antt =====
-- The part of `getBaseClusterExtraVars` that is about backups.
use postgresql_cluster.Common.{Bool, true, false, ◌&&◌, ◌||◌, if◌then◌else◌}
use postgresql_cluster.Js.{
  Js, bool, str, obj, Props, end, truthy, is_str, field, chain, ◌≔◌, ◌⊕◌, when, Result, ok, ◌>>=◌,
}
use postgresql_cluster.Fields.Cluster
use postgresql_cluster.Fields.Backups
use postgresql_cluster.Constants.Providers
use postgresql_cluster.Constants.BackupMethods
use postgresql_cluster.Params.{convert_modal_parameters_to_array}

-- The providers for which the form asks for the keys of the bucket.
unfoldable pub needs_keys : Props → Bool
needs_keys values =
    let code = chain (field values Cluster.provider) "code" in
    is_str code Providers.digital_ocean || is_str code Providers.hetzner

-- The properties that a nonempty configuration adds.
unfoldable pub with_config : Props → (Js → Props) → Result Props
with_config values vars =
    if truthy (field values Backups.config)
    then (do
      config ← convert_modal_parameters_to_array (field values Backups.config)
      ok (vars config))
    else ok end

abbrev pub pgbackrest_config : Js → Props
pgbackrest_config rows =
    "pgbackrest_auto_conf" ≔ bool false ⊕ "pgbackrest_conf" ≔ obj ("global" ≔ rows)

abbrev pub wal_g_config : Js → Props
wal_g_config rows = "wal_g_auto_conf" ≔ bool false ⊕ "wal_g_json" ≔ rows

unfoldable pub pgbackrest_extra_vars : Props → Result Props
unfolding needs_keys with_config
pgbackrest_extra_vars values = do
  config ← with_config values pgbackrest_config
  ok (
      "pgbackrest_install" ≔ bool true
      ⊕ "pgbackrest_backup_hour" ≔ field values Backups.backup_start_time
      ⊕ "pgbackrest_retention_full" ≔ field values Backups.backup_retention
      ⊕ "pgbackrest_retention_full_type" ≔ str "time"
      ⊕ config
      ⊕ when (needs_keys values) (
          "pgbackrest_s3_key" ≔ field values Backups.access_key
          ⊕ "pgbackrest_s3_key_secret" ≔ field values Backups.secret_key))

unfoldable pub wal_g_extra_vars : Props → Result Props
unfolding needs_keys with_config
wal_g_extra_vars values = do
  config ← with_config values wal_g_config
  ok (
      "wal_g_install" ≔ bool true
      ⊕ "wal_g_backup_hour" ≔ field values Backups.backup_start_time
      ⊕ "wal_g_retention_full" ≔ field values Backups.backup_retention
      ⊕ config
      ⊕ when (needs_keys values) (
          "wal_g_aws_access_key_id" ≔ field values Backups.access_key
          ⊕ "wal_g_aws_secret_access_key" ≔ field values Backups.secret_key))

unfoldable pub backups_enabled : Props → Bool
backups_enabled values =
    truthy (field values Backups.is_backups_enabled) && truthy (field values Backups.backup_method)

unfoldable pub backup_extra_vars : Props → Result Props
unfolding backups_enabled pgbackrest_extra_vars wal_g_extra_vars
backup_extra_vars values =
    if backups_enabled values
    then (if is_str (field values Backups.backup_method) BackupMethods.pg_back_rest
        then pgbackrest_extra_vars values
        else wal_g_extra_vars values)
    else ok ("pgbackrest_install" ≔ bool false ⊕ "pgbackrest_auto_conf" ≔ bool false)
