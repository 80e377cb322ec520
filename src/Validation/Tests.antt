-- ===== src/Validation/Tests.antt =====
-- Runs of the validation.
use postgresql_cluster.Common.{true, false, ◌≡◌, refl, inr}
use postgresql_cluster.Js.{
  Js, undefined, bool, num, str, obj, arr, cons, nil, Props, end, prop, Returns, truthy, chain,
  items,
}
use postgresql_cluster.Fields.Cluster
use postgresql_cluster.Fields.Dcs
use postgresql_cluster.Fields.Backups
use postgresql_cluster.Fields.PostgresParameters
use postgresql_cluster.Fields.KernelParameters
use postgresql_cluster.Samples.{sample_yup, sample-IsYup, local_values, server}
use postgresql_cluster.Inventory.{get_local_machine_envs}
use postgresql_cluster.ExtraVars.{parameter_extra_vars, kernel_extra_vars, backup_extra_vars}
use postgresql_cluster.Secret.Laws.{IsComplete}
use postgresql_cluster.Validation.Form.{cluster_form_schema, is_cluster_name}
use postgresql_cluster.Validation.ServerLaws.{accepted-Returns}
use postgresql_cluster.Validation.CredentialLaws.{saved_body, accepted-IsComplete}
use postgresql_cluster.Validation.ConfigLaws.{accepted-config}

name_test_ok : is_cluster_name "pg-cluster-01" ≡ true
unfolding is_cluster_name
name_test_ok = refl

name_test_dash : is_cluster_name "-pg" ≡ false
unfolding is_cluster_name
name_test_dash = refl

name_test_long : is_cluster_name "abcdefghijklmnopqrstuvwxy" ≡ false
unfolding is_cluster_name
name_test_long = refl

abbrev accepted_values : Props
accepted_values = prop Cluster.postgres_version (num 18) local_values

abbrev expert_values : Props
expert_values = prop Backups.config (str "repo1-path:/backup") (
    prop Backups.is_backups_enabled (bool true) (
      prop PostgresParameters.postgres_parameters (str "shared_buffers:1GB")
        (prop KernelParameters.kernel_parameters (str "") accepted_values)))

accepted-Returns_example : Returns (get_local_machine_envs false accepted_values undefined)
unfolding cluster_form_schema postgresql_cluster.Js.field
accepted-Returns_example =
    accepted-Returns sample_yup accepted_values undefined (server "a" "10.0.0.1")
      (cons (server "b" "10.0.0.2") (cons (server "c" "10.0.0.3") nil)) sample-IsYup refl refl refl

accepted-IsComplete_example : IsComplete (saved_body accepted_values "password")
unfolding cluster_form_schema postgresql_cluster.Js.field
accepted-IsComplete_example =
    accepted-IsComplete sample_yup false accepted_values "password" sample-IsYup refl refl refl refl
      (inr refl)

accepted-config_example :
    Returns (parameter_extra_vars expert_values)
    × Returns (kernel_extra_vars expert_values)
    × Returns (backup_extra_vars expert_values)
unfolding cluster_form_schema postgresql_cluster.Js.field
    postgresql_cluster.Params.config_validation
accepted-config_example = accepted-config sample_yup expert_values refl

-- An etcd that exists, with an address and a port.
abbrev etcd_server : Js
etcd_server = obj (
    prop Dcs.dcs_database_ip_address (str "10.0.0.9") (prop Dcs.dcs_database_port (str "2379") end))

abbrev etcd_values : Props
etcd_values =
    prop Dcs.is_deploy_new_cluster (bool false)
      (prop Dcs.dcs_databases (arr (cons etcd_server nil)) expert_values)
