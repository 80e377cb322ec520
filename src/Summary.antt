-- ===== src/Summary.antt =====
-- `isHighAvailability` of console/ui/src/widgets/cluster-summary/lib/hooks.tsx: what the summary
-- beside the form says about a cluster on servers of one's own.
use postgresql_cluster.Common.{Bool, true, false, not, ◌&&◌, ◌||◌, leb, length}
use postgresql_cluster.Js.{Js, Props, field, truthy, arr, items}
use postgresql_cluster.Fields.Dcs
use postgresql_cluster.Fields.DatabaseServers
mod EtcdLaws
mod Tests

-- `v?.length >= 3`, for an array or nothing.
abbrev pub has_three : Js → Bool
has_three (arr xs) = leb 3 (length (items xs))
has_three _ = false

unfoldable pub is_high_availability : Bool → Props → Bool
is_high_availability expert values =
    (expert
      && not (truthy (field values Dcs.is_deploy_new_cluster))
      && has_three (field values Dcs.dcs_databases))
    || (expert
        && truthy (field values Dcs.is_deploy_new_cluster)
        && not (truthy (field values Dcs.is_deploy_to_db_servers))
        && has_three (field values Dcs.dcs_databases))
    || (expert
        && truthy (field values Dcs.is_deploy_new_cluster)
        && truthy (field values Dcs.is_deploy_to_db_servers)
        && has_three (field values DatabaseServers.database_servers))
    || (not expert && has_three (field values DatabaseServers.database_servers))
