-- ===== src/Api/Operations.antt =====
-- The endpoints of console/ui/src/shared/api/api/operations.ts.
use postgresql_cluster.Common.{[], ◌∷◌, none, some}
use postgresql_cluster.Js.{undefined, field, to_string, ◌≔◌, ◌⊕◌}
use postgresql_cluster.Js.Text.{◌⧺◌}
use postgresql_cluster.Api.Kinds.{Endpoint, tag, list_tags}

abbrev pub get_operations : Endpoint
get_operations = record {
  request = λ arg. record {
    url = "/operations";
    method = none;
    params = some (
        "project_id" ≔ field arg "projectId"
        ⊕ "start_date" ≔ field arg "startDate"
        ⊕ "end_date" ≔ field arg "endDate"
        ⊕ "cluster_name" ≔ field arg "clusterName"
        ⊕ "type" ≔ field arg "type"
        ⊕ "status" ≔ field arg "status"
        ⊕ "sort_by" ≔ field arg "sortBy"
        ⊕ "limit" ≔ field arg "limit"
        ⊕ "offset" ≔ field arg "offset");
    body = undefined;
  };
  provides = λ arg result. list_tags "Operations" result;
  invalidates = λ arg. [];
}

abbrev pub get_operations_by_id_log : Endpoint
get_operations_by_id_log = record {
  request = λ arg. record {
    url = "/operations/" ⧺ to_string (field arg "id") ⧺ "/log";
    method = none;
    params = none;
    body = undefined;
  };
  provides = λ arg result. tag "Operations" (field arg "id") ∷ [];
  invalidates = λ arg. [];
}
