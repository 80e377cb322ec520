-- ===== src/Api/Deployments.antt =====
-- The endpoints of console/ui/src/shared/api/api/deployments.ts.
use postgresql_cluster.Common.{[], none, some}
use postgresql_cluster.Js.{undefined, field, ◌≔◌, ◌⊕◌}
use postgresql_cluster.Api.Kinds.{Endpoint}

abbrev pub get_external_deployments : Endpoint
get_external_deployments = record {
  request = λ arg. record {
    url = "/external/deployments";
    method = none;
    params = some ("offset" ≔ field arg "offset" ⊕ "limit" ≔ field arg "limit");
    body = undefined;
  };
  provides = λ arg result. [];
  invalidates = λ arg. [];
}
