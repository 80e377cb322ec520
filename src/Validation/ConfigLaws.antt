-- ===== src/Validation/ConfigLaws.antt =====
-- The parameters of an accepted form are converted without an exception.
use postgresql_cluster.Common.{
  arith, Bool, true, false, ◌&&◌, ◌≡◌, and-true, Bool-cases, inl, inr, ne_of_test, if◌then◌else◌,
}
use postgresql_cluster.Js.{
  undefined, null, nan, bool, num, arr, obj, is_str, Js, str, Props, field, truthy, Returns,
  returned, bool, num, arr, obj,
}
use postgresql_cluster.Schemas.{Yup}
use postgresql_cluster.Fields.Backups
use postgresql_cluster.Constants.BackupMethods
use postgresql_cluster.Fields.PostgresParameters
use postgresql_cluster.Fields.KernelParameters
use postgresql_cluster.Params.{convert_modal_parameters_to_array}
use postgresql_cluster.Params.Laws.{convert-config_validation}
use postgresql_cluster.ExtraVars.{
  parameter_extra_vars, kernel_extra_vars, with_config, backup_extra_vars, pgbackrest_extra_vars,
  wal_g_extra_vars, pgbackrest_config, wal_g_config, backups_enabled, pgbackrest_extra_vars,
  wal_g_extra_vars,
}
use postgresql_cluster.Validation.Cloud.{is_local}
use postgresql_cluster.Validation.Expert.{
  required_config_schema, config_schema, config_test, backups_block_form_schema,
  postgres_parameters_block_form_schema, kernel_parameters_block_form_schema,
}
use postgresql_cluster.Validation.Form.{default_schema, expert_schema, cluster_form_schema}

-- A text that is accepted, if there is one, can be converted.
config-Returns :
    (v : Js)
    → config_test v ≡ true
    → truthy v ≡ true
    → Returns (convert_modal_parameters_to_array v)
config-Returns (str s) valid full =
    let (found, e, _) =
      convert-config_validation s valid (ne_of_test s "" (ground (arith, full))) in
    rw e tt
config-Returns undefined valid full = cc
config-Returns null valid full = cc
config-Returns nan valid full = cc
config-Returns (bool b) valid full = cc
config-Returns (num n) valid full = cc
config-Returns (arr xs) valid full = cc
config-Returns (obj ps) valid full = cc

parameter-Returns :
    (values : Props)
    → config_test (field values PostgresParameters.postgres_parameters) ≡ true
    → Returns (parameter_extra_vars values)
unfolding parameter_extra_vars
parameter-Returns values valid =
    elim (Bool-cases (truthy (field values PostgresParameters.postgres_parameters))) [
      | inl full ↦
          let (found, e) =
            returned
              (convert_modal_parameters_to_array
                (field values PostgresParameters.postgres_parameters))
              (config-Returns (field values PostgresParameters.postgres_parameters) valid full) in
          rw (full, e) tt
      | inr empty ↦ rw empty tt
    ]

kernel-Returns :
    (values : Props)
    → config_test (field values KernelParameters.kernel_parameters) ≡ true
    → Returns (kernel_extra_vars values)
unfolding kernel_extra_vars
kernel-Returns values valid =
    elim (Bool-cases (truthy (field values KernelParameters.kernel_parameters))) [
      | inl full ↦
          let (found, e) =
            returned
              (convert_modal_parameters_to_array (field values KernelParameters.kernel_parameters))
              (config-Returns (field values KernelParameters.kernel_parameters) valid full) in
          rw (full, e) tt
      | inr empty ↦ rw empty tt
    ]

with_config-Returns :
    (values : Props) (vars : Js → Props)
    → config_test (field values Backups.config) ≡ true
    → Returns (with_config values vars)
unfolding with_config
with_config-Returns values vars valid = elim (Bool-cases (truthy (field values Backups.config))) [
  | inl full ↦
      let (found, e) =
        returned (convert_modal_parameters_to_array (field values Backups.config))
          (config-Returns (field values Backups.config) valid full) in
      rw (full, e) tt
  | inr empty ↦ rw empty tt
]

pgbackrest-Returns :
    (values : Props)
    → config_test (field values Backups.config) ≡ true
    → Returns (pgbackrest_extra_vars values)
unfolding pgbackrest_extra_vars
pgbackrest-Returns values valid =
    let (config, e) =
      returned (with_config values pgbackrest_config)
        (with_config-Returns values pgbackrest_config valid) in
    rw e tt

wal_g-Returns :
    (values : Props)
    → config_test (field values Backups.config) ≡ true
    → Returns (wal_g_extra_vars values)
unfolding wal_g_extra_vars
wal_g-Returns values valid =
    let (config, e) =
      returned (with_config values wal_g_config) (with_config-Returns values wal_g_config valid) in
    rw e tt

backup-Returns :
    (values : Props)
    → config_test (field values Backups.config) ≡ true
    → Returns (backup_extra_vars values)
unfolding backup_extra_vars
backup-Returns values valid = elim (Bool-cases (backups_enabled values)) [
  | inl enabled ↦
      elim (Bool-cases (is_str (field values Backups.backup_method) BackupMethods.pg_back_rest)) [
        | inl first ↦ rw (enabled, first) (pgbackrest-Returns values valid)
        | inr second ↦ rw (enabled, second) (wal_g-Returns values valid)
      ]
  | inr disabled ↦ rw disabled tt
]

either-config :
    (yup : Yup) (needed : Bool) (v : Js)
    → (if needed then required_config_schema yup v else config_schema yup v) ≡ true
    → config_test v ≡ true
either-config yup true v h = (and-true (yup.required_string v) (config_test v) h).1
either-config yup false v h = (and-true (yup.string v) (config_test v) h).1

backups-config :
    (yup : Yup) (values : Props)
    → backups_block_form_schema yup values ≡ true
    → config_test (field values Backups.config) ≡ true
unfolding backups_block_form_schema
backups-config yup values h =
    let (to_access, secret) = and-true _ _ h in
    let (to_retention, access) = and-true _ _ to_access in
    let (to_start, retention) = and-true _ _ to_retention in
    let (to_config, start) = and-true _ _ to_start in
    either-config yup (is_local values && truthy (field values Backups.is_backups_enabled))
      (field values Backups.config) (and-true _ _ to_config).1

-- If the schema of the expert mode accepts a form, then the texts of parameters and of the
-- backups' configuration that it holds are converted without an exception.
pub accepted-config :
    (yup : Yup) (values : Props)
    → cluster_form_schema yup true values ≡ true
    → Returns (parameter_extra_vars values)
      × Returns (kernel_extra_vars values)
      × Returns (backup_extra_vars values)
unfolding cluster_form_schema expert_schema postgres_parameters_block_form_schema
    kernel_parameters_block_form_schema
accepted-config yup values accepted =
    let (to_kernel, additional) =
      and-true _ _ (and-true (default_schema yup true values) _ accepted).1 in
    let (to_parameters, kernel) = and-true _ _ to_kernel in
    let (to_backups, parameters) = and-true _ _ to_parameters in
    (
      parameter-Returns values (and-true _ _ parameters).1,
      kernel-Returns values (and-true _ _ kernel).1,
      backup-Returns values (backups-config yup values (and-true _ _ to_backups).1),
    )
