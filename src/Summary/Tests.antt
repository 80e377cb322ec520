-- ===== src/Summary/Tests.antt =====
-- A run of the summary.
use postgresql_cluster.Common.{true, ◌≡◌, refl, some, ◌≤◌, ne_of_test}
use postgresql_cluster.Js.{Props, end, lookup, size}
use postgresql_cluster.Samples.{result_or, local_values}
use postgresql_cluster.Inventory.{construct_dcs_envs, group}
use postgresql_cluster.Summary.EtcdLaws.{high_availability-etcd}

high_availability-etcd_example :
    (hosts : Props) × (lookup (result_or end (construct_dcs_envs true local_values)) "etcd_cluster"
      ≡ some (group hosts))
    × (3 ≤ size hosts)
unfolding construct_dcs_envs postgresql_cluster.Js.field
    postgresql_cluster.Summary.is_high_availability
high_availability-etcd_example =
    high_availability-etcd true local_values true
      (result_or end (construct_dcs_envs true local_values))
      (record { new = refl; etcd = λ h. refl; flag = λ h. refl }) refl
      (
        (ne_of_test "10.0.0.1" "10.0.0.2" refl, (ne_of_test "10.0.0.1" "10.0.0.3" refl, tt)),
        ((ne_of_test "10.0.0.2" "10.0.0.3" refl, tt), (tt, tt)),
      )
      refl
